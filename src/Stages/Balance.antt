-- ===== src/Stages/Balance.antt =====
-- The first versions of the module: what they give back.
use linux_programing.Common.{◌≡◌, Bool, ◌&&◌, arith, if◌then◌else◌}
use linux_programing.Common.Pointers.{not_null}
use linux_programing.Common.Int.{ℤ, pos, negsuc}
use linux_programing.Stages.{Kernel, Answers, nothing_held}
use linux_programing.Stages.MajorMinor
use linux_programing.Stages.DeviceFile
use linux_programing.Stages.FileOperations

-- The status of a constructor, and what is held when it failed, or after the destructor when not.
abbrev pub cycle : (ℤ × Kernel) → (Kernel → Kernel) → ℤ × Kernel
cycle (pos n, k) exit = (pos n, exit k)
cycle (negsuc n, k) exit = (negsuc n, k)

abbrev pub status : Bool → ℤ
status granted = if granted then pos 0 else negsuc 0

-- The constructors of 01-major-minor and of 02-device-file return 0 when nothing they ask for is refused by
-- a negative number or by NULL, so also when the class or the device is an error pointer,
-- and after a failure, or after the destructor, nothing is held. That of 03-file-operations returns
-- the same, but keeps the cdev when it fails behind `cdev_add`, and its destructor unregisters two
-- numbers that the module does not hold.
pub cycle-hello_world_init :
    (a : Answers)
    → (cycle (MajorMinor.hello_world_init a nothing_held) MajorMinor.hello_world_exit
        ≡ (status a.alloc_chrdev_region, nothing_held))
      × (cycle (DeviceFile.hello_world_init a nothing_held) DeviceFile.hello_world_exit ≡ (
        status (a.alloc_chrdev_region && (not_null a.class_create && not_null a.device_create)),
        nothing_held,
      ))
      × (cycle (FileOperations.hello_world_init a nothing_held) FileOperations.hello_world_exit ≡ (
          if a.alloc_chrdev_region
            && (a.cdev_add && (not_null a.class_create && not_null a.device_create))
          then (pos 0, record nothing_held { unowned = 2 })
          else (negsuc 0, record nothing_held { cdev = a.alloc_chrdev_region && a.cdev_add })))
unfolding MajorMinor.hello_world_init MajorMinor.hello_world_exit DeviceFile.hello_world_init
    DeviceFile.hello_world_exit FileOperations.hello_world_init FileOperations.hello_world_exit
cycle-hello_world_init a = (ground arith, ground arith, ground arith)
