-- ===== src/FileIo/FileType.antt =====
-- 02-linux-file-system/file-infor/main.c, `main`, and BTVN/02-file/ass1.c, `getFileType`: the type of a file
-- from its mode, by a `switch` and by the tests of sys/stat.h. The texts are named by constructors.
use Prim.Native.Nat.{bit_and}
use linux_programing.Common.{ℕ, ◌≡◌, Option, none, some, ◌==◌, if◌then◌else◌, arith}

pub data Text : Type 0 where
  block_device character_device directory fifo symlink regular_file socket unknown : Text

-- `st_mode & S_IFMT`
abbrev pub type_bits : (st_mode : ℕ) → ℕ
type_bits st_mode = bit_and st_mode 0xf000

-- S_IFBLK, S_IFCHR, S_IFDIR, S_IFIFO, S_IFLNK, S_IFREG and S_IFSOCK.
unfoldable pub print_type : (st_mode : ℕ) → Text
print_type st_mode =
    let bits = type_bits st_mode in
    if bits == 0x6000
    then block_device
    else if bits == 0x2000
    then character_device
    else if bits == 0x4000
    then directory
    else if bits == 0x1000
    then fifo
    else if bits == 0xa000
    then symlink
    else if bits == 0x8000
    then regular_file
    else if bits == 0xc000
    then socket
    else unknown

-- S_ISDIR, S_ISREG, S_ISCHR, S_ISBLK, S_ISFIFO, S_ISLNK and S_ISSOCK; `none` prints nothing.
unfoldable pub get_file_type : (st_mode : ℕ) → Option Text
get_file_type st_mode =
    let bits = type_bits st_mode in
    if bits == 0x4000
    then some directory
    else if bits == 0x8000
    then some regular_file
    else if bits == 0x2000
    then some character_device
    else if bits == 0x6000
    then some block_device
    else if bits == 0x1000
    then some fifo
    else if bits == 0xa000
    then some symlink
    else if bits == 0xc000
    then some socket
    else none

abbrev pub known : Text → Option Text
known unknown = none
known text = some text

-- On every mode the two programs name the same type, and where the one says that it does not know it,
-- the other says nothing.
pub get_file_type-print_type : (st_mode : ℕ) → get_file_type st_mode ≡ known (print_type st_mode)
unfolding get_file_type print_type
get_file_type-print_type st_mode = ground arith
