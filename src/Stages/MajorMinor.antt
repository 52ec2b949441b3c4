-- ===== src/Stages/MajorMinor.antt =====
-- 11-kernel-module-basic/01-major-minor/hello.c
use linux_programing.Common.{◌+◌, if◌then◌else◌}
use linux_programing.Common.Int.{ℤ, pos, negsuc}
use linux_programing.Stages.{Kernel, Answers, unregister_chrdev_region}

unfoldable pub hello_world_init : Answers → Kernel → ℤ × Kernel
hello_world_init a k =
    if a.alloc_chrdev_region then (pos 0, record k { minors = k.minors + 1 }) else (negsuc 0, k)

unfoldable pub hello_world_exit : Kernel → Kernel
hello_world_exit k = unregister_chrdev_region 1 k
