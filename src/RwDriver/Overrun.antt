-- ===== src/RwDriver/Overrun.antt =====
-- 04-fops-rw/hello.c: reads and writes of a module whose memory is 1024 bytes.
use linux_programing.Common.{
  ℕ, zero, suc, ◌+◌, ◌<◌, ◌≡◌, refl, true, false, none, some, List, length, arith,
}
use linux_programing.Common.Pointers.{valid_ptr}
use linux_programing.RwDriver.{
  Module, overrun, may_access, m_write, Grants, hello_world_init, get_memory, bytes_from,
  kmalloc_size,
}

-- The module before its constructor.
abbrev pub unloaded : Module
unloaded = record {
  size = 0;
  kmalloc_ptr = none;
  minors = 0;
  cdev = false;
  class = false;
  device = false;
}

abbrev pub all_granted : Grants → (ℕ → ℕ) → Grants
all_granted g memory = record g {
  alloc_chrdev_region = true;
  cdev_add = true;
  class_create = valid_ptr;
  device_create = valid_ptr;
  kmalloc = some memory;
}

length-bytes_from : (memory : ℕ → ℕ) (start size : ℕ) → length (bytes_from memory start size) ≡ size
unfolding bytes_from
length-bytes_from memory start zero = refl
length-bytes_from memory start (suc size) = omega (arith, length-bytes_from memory (start + 1) size)

-- After a constructor to which all is granted, with pages of more bytes than it allocates, every write leaves the
-- allocated memory, whatever its bytes and its offset, because the page is cleared first.
pub m_write-overrun :
    (page missed offset : ℕ) (memory : ℕ → ℕ) (user : List ℕ) (g : Grants)
    → kmalloc_size < page
    → m_write page missed user offset (hello_world_init (all_granted g memory) unloaded).1 ≡ overrun
unfolding m_write may_access hello_world_init get_memory
m_write-overrun page missed offset memory user g small =
    ground (arith, small, length-bytes_from memory 0 kmalloc_size)
