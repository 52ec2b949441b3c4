-- ===== src/RwDriver.antt =====
-- 11-kernel-module-basic/04-fops-rw/hello.c: the character device before it had `ioctl`, with memory
-- of 1024 bytes. The size of a page and the answers of the kernel are arguments.
pub mod Overrun
pub mod Menu
mod Tests
use linux_programing.Common.{
  ℕ, zero, suc, ◌+◌, ◌-◌, ◌%◌, ◌^◌, Bool, true, false, Option, none, some, List, [], ◌∷◌, ◌++◌,
  length, take, drop, replicate, ltb, leb, ◌==◌, if◌then◌else◌,
}
use linux_programing.Common.Pointers.{Pointer, not_null, exists}
use linux_programing.Common.Int.{ℤ, pos, negsuc}

-- `mdev`, and what the module holds: minors, the cdev, the class and the device. `kmalloc_ptr` is
-- NULL or the bytes allocated.
pub record Module : Type 0 where
  pub size : ℕ
  pub kmalloc_ptr : Option (List ℕ)
  pub minors : ℕ
  pub cdev : Bool
  pub class : Bool
  pub device : Bool

-- What a system call does: it returns a value and moves the offset, fails with EFAULT, or leaves the
-- allocated memory.
pub data Reply : Type 0 where
  reply : (value : ℕ) (bytes : List ℕ) (offset : ℕ) → Module → Reply
  efault : Module → Reply
  overrun : Reply

-- `size_t`
abbrev pub wrap : ℕ → ℕ
wrap n = n % 2 ^ 64

-- `(size > mdev.size - *offset) ? (mdev.size - *offset) : size`
pub to_read : (size offset : ℕ) → Module → ℕ
to_read size offset m =
    let left = wrap (m.size + 2 ^ 64 - offset) in if ltb left size then left else size

-- An access to `n` bytes at `offset`: none at a NULL pointer, unless there are none.
pub may_access : Option (List ℕ) → (offset n : ℕ) → Bool
may_access none offset n = n == 0
may_access (some bytes) offset n = if n == 0 then true else leb (offset + n) (length bytes)

abbrev pub bytes_at : Option (List ℕ) → (offset n : ℕ) → List ℕ
bytes_at none offset n = []
bytes_at (some bytes) offset n = take n (drop offset bytes)

pub m_read : (copied : Bool) → (size offset : ℕ) → Module → Reply
unfolding to_read may_access
m_read copied size offset m =
    let n = to_read size offset m in
    if may_access m.kmalloc_ptr offset n
    then if copied then reply n (bytes_at m.kmalloc_ptr offset n) (offset + n) m else efault m
    else overrun

module _ (page : ℕ) where
  -- `(size + *offset > NPAGES * PAGE_SIZE) ? (NPAGES * PAGE_SIZE - *offset) : size`
  pub to_write : (size offset : ℕ) → ℕ
  to_write size offset =
      if ltb page (wrap (size + offset)) then wrap (page + 2 ^ 64 - offset) else size

  -- `memset` over the page, then the bytes that `copy_from_user` copies.
  pub fill_page : Option (List ℕ) → (offset : ℕ) → (copied : List ℕ) → Option (List ℕ)
  fill_page none offset copied = none
  fill_page (some bytes) offset copied =
      let cleared : List ℕ = replicate page 0 ++ drop page bytes in
      some (take offset cleared ++ (copied ++ drop (offset + length copied) cleared))

  pub m_write : (missed : ℕ) → (user : List ℕ) → (offset : ℕ) → Module → Reply
  unfolding to_write may_access fill_page
  m_write missed user offset m =
      let n = to_write (length user) offset in
      let filled : Module = record m {
        kmalloc_ptr = fill_page m.kmalloc_ptr offset (take (n - missed) user);
      } in
      if may_access m.kmalloc_ptr 0 page
      then if may_access m.kmalloc_ptr offset n
        then if missed == 0
          then reply n [] (offset + n) (record filled { size = offset + n })
          else efault filled
        else overrun
      else overrun

pub m_open : Module → ℤ × Module
m_open m = (pos 0, m)

pub m_release : Module → ℤ × Module
m_release m = (pos 0, m)

-- The answers of the kernel to the constructor; `kmalloc` answers with NULL or with memory, of which
-- the byte at each index is what happened to stand there.
pub record Grants : Type 0 where
  pub alloc_chrdev_region : Bool
  pub cdev_add : Bool
  pub class_create : Pointer
  pub device_create : Pointer
  pub kmalloc : Option (ℕ → ℕ)

-- The labels `rm_device_numb`, `rm_class` and `rm_device`.
undo_number : Module → ℤ × Module
undo_number m = (negsuc 0, record m { minors = m.minors - 1 })

undo_class : Module → ℤ × Module
unfolding undo_number
undo_class m = undo_number (record m { class = false })

undo_device : Module → ℤ × Module
unfolding undo_class
undo_device m = undo_class (record m { device = false })

-- `kmalloc(1024, GFP_KERNEL)`
abbrev pub kmalloc_size : ℕ
kmalloc_size = 1024

pub bytes_from : (memory : ℕ → ℕ) → (start size : ℕ) → List ℕ
bytes_from memory start zero = []
bytes_from memory start (suc size) = memory start ∷ bytes_from memory (start + 1) size

get_memory : Option (ℕ → ℕ) → Module → ℤ × Module
unfolding undo_device bytes_from
get_memory none m = undo_device m
get_memory (some memory) m =
    (pos 0, record m { kmalloc_ptr = some (bytes_from memory 0 kmalloc_size) })

pub hello_world_init : Grants → Module → ℤ × Module
unfolding undo_number undo_class get_memory
hello_world_init g m =
    let numbered : Module = record m { minors = m.minors + 1 } in
    let added : Module = record numbered { cdev = true } in
    let classed : Module = record added { class = exists g.class_create } in
    if g.alloc_chrdev_region
    then if g.cdev_add
      then if not_null g.class_create
        then if not_null g.device_create
          then get_memory g.kmalloc (record classed { device = exists g.device_create })
          else undo_class classed
        else undo_number added
      else undo_number numbered
    else (negsuc 0, m)

-- After `kfree` the pointer leads nowhere.
pub hello_world_exit : Module → Module
hello_world_exit m = record m {
  kmalloc_ptr = none;
  device = false;
  class = false;
  cdev = false;
  minors = m.minors - 3;
}
