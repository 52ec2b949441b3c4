-- ===== src/Driver/Lifecycle.antt =====
-- 05-fops-ioctl/hello.c: what the constructor acquires and the destructor gives back.
use linux_programing.Common.{◌≡◌, ◌||◌, true, false, arith}
use linux_programing.Common.Pointers.{not_null, exists}
use linux_programing.Common.Int.{pos}
use linux_programing.Driver.{Kernel, Answers, hello_world_init, hello_world_exit}

abbrev pub nothing_held : Kernel
nothing_held = record { minors = 0; cdev = false; class = false; device = false; memory = false }

abbrev pub all_held : Kernel
all_held = record { minors = 1; cdev = true; class = true; device = true; memory = true }

-- `class_create` and `device_create` do not answer with NULL, and no error pointer is handed on to
-- `device_destroy` as a class.
pub record Documented (a : Answers) : Type 0 where
  pub class_not_null : not_null a.class_create ≡ true
  pub device_not_null : not_null a.device_create ≡ true
  pub class_valid : (exists a.class_create || a.kmalloc) ≡ true

-- After a constructor that returns 0, the destructor leaves nothing held.
pub exit-init :
    (a : Answers) (k : Kernel)
    → hello_world_init a nothing_held ≡ (pos 0, k)
    → hello_world_exit k ≡ nothing_held
unfolding hello_world_init hello_world_exit
exit-init a k e = ground arith
