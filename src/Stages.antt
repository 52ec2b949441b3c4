-- ===== src/Stages.antt =====
-- 11-kernel-module-basic/01-major-minor, 02-device-file and 03-file-operations: the constructors and
-- destructors of the first versions of the module. The answers of the kernel are arguments.
pub mod MajorMinor
pub mod DeviceFile
pub mod FileOperations
pub mod Balance
mod Tests
use linux_programing.Common.{ℕ, ◌+◌, ◌-◌, Bool, true, false}
use linux_programing.Common.Pointers.{Pointer, not_null, exists}

-- What the module holds: the minors of its region, the cdev, the class and the device; and how many
-- numbers were unregistered that it does not hold.
pub record Kernel : Type 0 where
  pub minors : ℕ
  pub unowned : ℕ
  pub cdev : Bool
  pub class : Bool
  pub device : Bool

pub record Answers : Type 0 where
  pub alloc_chrdev_region : Bool
  pub cdev_add : Bool
  pub class_create : Pointer
  pub device_create : Pointer

abbrev pub unregister_chrdev_region : ℕ → Kernel → Kernel
unregister_chrdev_region n k = record k {
  minors = k.minors - n;
  unowned = k.unowned + (n - k.minors);
}

abbrev pub nothing_held : Kernel
nothing_held = record { minors = 0; unowned = 0; cdev = false; class = false; device = false }
