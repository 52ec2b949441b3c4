-- ===== src/Driver.antt =====
-- 11-kernel-module-basic/05-fops-ioctl/hello.c: a character device over one page of memory, with
-- its file operations and its constructor and destructor. The size of the page, the answers of the
-- kernel's allocators and the outcome of each copy from or to user space are arguments.
pub mod ReadWrite
pub mod Lifecycle
use linux_programing.Common.{
  ℕ, zero, suc, ◌+◌, ◌-◌, ◌%◌, ◌^◌, Bool, true, false, ◌&&◌, Option, none, some, List, [], ◌∷◌,
  ◌++◌, ltb, leb, ◌==◌, if◌then◌else◌, length, take, drop, replicate,
}
use linux_programing.Common.Pointers.{Pointer, not_null, exists}
use linux_programing.Common.Int.{ℤ, pos, negsuc}

-- `size_t` arithmetic.
abbrev pub word : ℕ
word = 2 ^ 64

abbrev pub add_word : ℕ → ℕ → ℕ
add_word a b = (a + b) % word

abbrev pub sub_word : ℕ → ℕ → ℕ
sub_word a b = (a + word - b) % word

-- `mdev` and `value`: the bytes behind `kmalloc_ptr`, how many of them are data, and the number
-- that the two `ioctl` commands move.
pub record Device : Type 0 where
  pub size : ℕ
  pub memory : List ℕ
  pub value : ℤ

-- An access of the kernel outside the allocation is `overrun`.
pub data Transfer : Type 0 where
  transferred : (count : ℕ) (bytes : List ℕ) (offset : ℕ) (device : Device) → Transfer
  efault : (device : Device) → Transfer
  overrun : Transfer

-- `n` bytes at `offset` lie in the memory; no byte always does.
abbrev pub fits : List ℕ → (offset n : ℕ) → Bool
fits memory offset n = if n == 0 then true else leb (offset + n) (length memory)

-- `mdev.size - *offset` is a `loff_t`, and is compared with `size` as an unsigned word.
pub read_length : Device → (size offset : ℕ) → ℕ
read_length d size offset =
    if ltb (sub_word d.size offset) size then sub_word d.size offset else size

pub m_read : Device → (copied : Bool) → (size offset : ℕ) → Transfer
unfolding read_length
m_read d copied size offset =
    let to_read = read_length d size offset in
    if fits d.memory offset to_read
    then if copied
      then transferred to_read (take to_read (drop offset d.memory)) (offset + to_read) d
      else efault d
    else overrun

module _ (page : ℕ) where
  pub write_length : (size offset : ℕ) → ℕ
  write_length size offset = if ltb page (add_word size offset) then sub_word page offset else size

  -- `memset(mdev.kmalloc_ptr, 0, ...)`
  pub clear : List ℕ → List ℕ
  clear memory = replicate page 0 ++ drop page memory

  -- Bytes over a memory that is long enough.
  pub splice : List ℕ → ℕ → List ℕ → List ℕ
  splice memory offset bytes = take offset memory ++ (bytes ++ drop (offset + length bytes) memory)

  -- `missed` is what `copy_from_user` returns: how many of the bytes it could not copy.
  pub m_write : Device → (missed : ℕ) → (user : List ℕ) → (offset : ℕ) → Transfer
  unfolding write_length clear splice
  m_write d missed user offset =
      let to_write = write_length (length user) offset in
      let cleared = clear d.memory in
      let filled = splice cleared offset (take (to_write - missed) user) in
      if ltb (length d.memory) page
      then overrun
      else if fits d.memory offset to_write
      then if missed == 0
        then transferred to_write (take to_write user) (offset + to_write)
            (record d { size = offset + to_write; memory = filled })
        else efault (record d { memory = filled })
      else overrun

-- WR_VALUE, RD_VALUE and every other command.
pub data Command : Type 0 where
  wr_value rd_value other : Command

-- The user's word at `arg`, and whether it can be copied.
pub record User : Type 0 where
  pub word_at_arg : ℤ
  pub copied : Bool

unfoldable pub m_ioctl : Command → Device → User → Device × User × ℤ
m_ioctl wr_value d u = ((if u.copied then record d { value = u.word_at_arg } else d), u, pos 0)
m_ioctl rd_value d u = (d, (if u.copied then record u { word_at_arg = d.value } else u), pos 0)
m_ioctl other d u = (d, u, pos 0)

-- `m_open` and `m_release` only write to the log.
pub m_open : Device → Device × ℤ
m_open d = (d, pos 0)

pub m_release : Device → Device × ℤ
m_release d = (d, pos 0)

-- What the module holds in the kernel: the minors of its region, and whether the cdev, the class,
-- the device and the memory exist.
pub record Kernel : Type 0 where
  pub minors : ℕ
  pub cdev : Bool
  pub class : Bool
  pub device : Bool
  pub memory : Bool

-- What the kernel answers to each request of the constructor, which compares the pointers with NULL.
pub record Answers : Type 0 where
  pub alloc_chrdev_region : Bool
  pub cdev_add : Bool
  pub class_create : Pointer
  pub device_create : Pointer
  pub kmalloc : Bool

abbrev pub unregister_chrdev_region : ℕ → Kernel → Kernel
unregister_chrdev_region n k = record k { minors = k.minors - n }

-- The labels at the end of the constructor, each falling through to the next.
rm_device_numb : Kernel → ℤ × Kernel
rm_device_numb k = (negsuc 0, unregister_chrdev_region 1 k)

rm_class : Kernel → ℤ × Kernel
unfolding rm_device_numb
rm_class k = rm_device_numb (record k { class = false })

rm_device : Kernel → ℤ × Kernel
unfolding rm_class
rm_device k = rm_class (record k { device = false })

pub hello_world_init : Answers → Kernel → ℤ × Kernel
unfolding rm_device
hello_world_init a k0 =
    let k1 = record k0 { minors = k0.minors + 1 } in
    let k2 = record k1 { cdev = true } in
    let k3 = record k2 { class = exists a.class_create } in
    let k4 = record k3 { device = exists a.device_create } in
    let k5 = record k4 { memory = true } in
    if a.alloc_chrdev_region
    then if a.cdev_add
      then if not_null a.class_create
        then if not_null a.device_create
          then if a.kmalloc then (pos 0, k5) else rm_device k4
          else rm_class k3
        else rm_device_numb k2
      else rm_device_numb k1
    else (negsuc 0, k0)

pub hello_world_exit : Kernel → Kernel
hello_world_exit k =
    unregister_chrdev_region 3
      (record k { memory = false; device = false; class = false; cdev = false })
