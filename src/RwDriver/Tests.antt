-- ===== src/RwDriver/Tests.antt =====
-- The device and the menu of 04-fops-rw at concrete inputs.
use linux_programing.Common.{ℕ, ◌≡◌, false, none, some, [], ◌∷◌, ◌++◌, arith}
use linux_programing.Common.Pointers.{null_ptr}
use linux_programing.RwDriver.{Grants, hello_world_init}
use linux_programing.RwDriver.Overrun.{unloaded, all_granted}
use linux_programing.RwDriver.Menu.{
  write_option, read_option, invalid_option, session, started, crashed, session-crashed,
}

abbrev grants : Grants
grants = record {
  alloc_chrdev_region = false;
  cdev_add = false;
  class_create = null_ptr;
  device_create = null_ptr;
  kmalloc = none;
}

-- Memory of one byte again and again, and pages of 4096.
abbrev sevens : ℕ → ℕ
sevens i = 7

-- A read, and one byte written.
session-crashed_example :
    session 4096
      ((read_option ∷ []) ++ write_option (some (65 ∷ [])) ∷ invalid_option ∷ [])
      (started (hello_world_init (all_granted grants sevens) unloaded).1 [])
    ≡ crashed
session-crashed_example =
    session-crashed 4096 sevens grants (omega arith) (read_option ∷ []) (invalid_option ∷ [])
      (some (65 ∷ [])) [] (tt, tt)
