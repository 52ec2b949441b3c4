-- ===== src/Gateway/Files/Content.antt =====
-- os_file.c: what the functions on files return.
use linux_programing.Common.{
  ℕ, ◌-◌, ◌≤◌, ◌≡◌, refl, Bool, true, false, some, List, [], ◌∷◌, ◌++◌, map, length, ltb, ◌==◌,
  arith, if◌then◌else◌, take, ◌&&◌,
}
use linux_programing.Common.Int.{pos, negsuc}
use linux_programing.Gateway.Files.{
  Stream, SizeAnswers, get_fp_size, FileAnswers, content, read_content, check_size, open_file,
  get_file_content,
}

abbrev pub all_succeed : SizeAnswers → Bool
all_succeed a = a.first_ftell && (a.seek_end && (a.second_ftell && a.seek_back))

-- `get_fp_size` returns the size of the file and leaves the position when its four calls succeed.
-- Else it returns -1, and the position is at the end when only the last two calls can have failed.
pub get_fp_size_lem :
    (a : SizeAnswers) (fp : Stream)
    → ((get_fp_size a fp).0 ≡ (if all_succeed a then pos (length fp.bytes) else negsuc 0))
      × ((get_fp_size a fp).1 ≡ (
          if all_succeed a
          then fp
          else if a.first_ftell && a.seek_end
          then record fp { position = length fp.bytes }
          else fp))
unfolding get_fp_size
get_fp_size_lem a fp = ground arith

take-all : {A : Type 0} (xs : List A) → take (length xs) xs ≡ xs
take-all [] = refl
take-all (x ∷ xs) = rw (take-all xs) refl

-- With a path, a file that opens at its start, has a size of at most `max_size`, finds memory and
-- is read to its end is returned whole, with a zero behind it.
pub get_file_content-whole :
    (a : FileAnswers) (bytes : List ℕ) (max_size : ℕ)
    → a.path ≡ true
    → a.fopen ≡ some (record { bytes = bytes; position = 0 })
    → all_succeed a.size ≡ true
    → length bytes ≤ max_size
    → a.allocated ≡ true
    → a.read ≡ length bytes
    → get_file_content a max_size ≡ content (map some bytes ++ some 0 ∷ [])
unfolding get_file_content open_file check_size read_content get_fp_size
get_file_content-whole a bytes max_size path opened sized small allocated all_read =
    let sub : length bytes - length bytes ≡ 0 = omega arith in
    let fits : ltb max_size (length bytes) ≡ false = ground arith in
    let same : (length bytes == length bytes) ≡ true = ground arith in
    rw (path, opened) (ground (arith, sized, allocated, all_read, take-all bytes, sub, fits, same))
