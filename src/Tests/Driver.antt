-- ===== src/Tests/Driver.antt =====
-- The driver of 11-kernel-module-basic/05-fops-ioctl/hello.c at a page of four bytes.
use linux_programing.Common.{true}
use linux_programing.Common.Pointers.{err_ptr}
use linux_programing.Driver.{Answers}

-- The class cannot be created, and so no device.
abbrev no_class : Answers
no_class = record {
  alloc_chrdev_region = true;
  cdev_add = true;
  class_create = err_ptr;
  device_create = err_ptr;
  kmalloc = true;
}
