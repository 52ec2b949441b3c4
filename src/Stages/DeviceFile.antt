-- ===== src/Stages/DeviceFile.antt =====
-- 11-kernel-module-basic/02-device-file/hello.c
use linux_programing.Common.{◌+◌, false, if◌then◌else◌}
use linux_programing.Common.Pointers.{not_null, exists}
use linux_programing.Common.Int.{ℤ, pos, negsuc}
use linux_programing.Stages.{Kernel, Answers, unregister_chrdev_region}

-- The labels, each falling through to the next.
rm_device_numb : Kernel → ℤ × Kernel
rm_device_numb k = (negsuc 0, unregister_chrdev_region 1 k)

rm_class : Kernel → ℤ × Kernel
unfolding rm_device_numb
rm_class k = rm_device_numb (record k { class = false })

unfoldable pub hello_world_init : Answers → Kernel → ℤ × Kernel
unfolding rm_class
hello_world_init a k =
    let numbered : Kernel = record k { minors = k.minors + 1 } in
    let classed : Kernel = record numbered { class = exists a.class_create } in
    if a.alloc_chrdev_region
    then if not_null a.class_create
      then if not_null a.device_create
        then (pos 0, record classed { device = exists a.device_create })
        else rm_class classed
      else rm_device_numb numbered
    else (negsuc 0, k)

unfoldable pub hello_world_exit : Kernel → Kernel
hello_world_exit k = unregister_chrdev_region 1 (record k { device = false; class = false })
