-- ===== src/FileIo/Tests.antt =====
-- The programs on one file at concrete inputs.
use linux_programing.Common.{◌≡◌, refl}
use linux_programing.FileIo.FileType.{print_type, directory}

print_directory : print_type 0x41ed ≡ directory
unfolding print_type
print_directory = refl
