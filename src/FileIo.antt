-- ===== src/FileIo.antt =====
-- Programs on one file: BTVN/02-file, 02-linux-file-system/file-infor and 02-linux-file-system/fcntl. A
-- file is the list of its bytes.
pub mod Writers
pub mod FileType
pub mod Locks
mod Tests
use linux_programing.Common.{ℕ, ◌+◌, ◌-◌, List, ◌++◌, length, take, drop, replicate}

-- What `write` makes of a file, from an offset on: a gap behind the end is filled with zeros.
pub write_at : (offset : ℕ) → (bytes : List ℕ) → (file : List ℕ) → List ℕ
write_at offset bytes file =
    take offset (file ++ replicate (offset - length file) 0)
    ++ (bytes ++ drop (offset + length bytes) file)
