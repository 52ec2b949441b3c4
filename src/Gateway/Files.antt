-- ===== src/Gateway/Files.antt =====
-- final-assignment/shared/os_file.c: the size and the contents of a file. What the file system and
-- `malloc` answer are parameters.
pub mod Content
use linux_programing.Common.{
  ℕ, ◌-◌, ◌+◌, Bool, true, false, Option, none, some, List, [], ◌∷◌, ◌++◌, map, ◌&&◌, length, ltb,
  leb, ◌==◌, if◌then◌else◌, replicate, take, drop,
}
use linux_programing.Common.Int.{ℤ, pos, negsuc}

-- `stat` and `S_ISREG`
unfoldable pub is_file : (found regular : Bool) → ℤ
is_file found regular = if found && regular then pos 0 else negsuc 0

-- An open stream: the bytes of the file and the position.
pub record Stream : Type 0 where
  pub bytes : List ℕ
  pub position : ℕ

-- Which of the four calls of `get_fp_size` succeed.
pub record SizeAnswers : Type 0 where
  pub first_ftell : Bool
  pub seek_end : Bool
  pub second_ftell : Bool
  pub seek_back : Bool

pub get_fp_size : SizeAnswers → Stream → ℤ × Stream
get_fp_size a fp =
    let at_end : Stream = record fp { position = length fp.bytes } in
    if a.first_ftell
    then if a.seek_end
      then if a.second_ftell
        then if a.seek_back
          then (pos at_end.position, record at_end { position = fp.position })
          else (negsuc 0, at_end)
        else (negsuc 0, at_end)
      else (negsuc 0, fp)
    else (negsuc 0, fp)

-- What `get_file_content` returns: a pointer to bytes, some of them not set, NULL, or the value of
-- a variable that was never set. Without memory the process ends, and without a path the value of
-- another such variable is used as a stream.
pub data Returned : Type 0 where
  content : List (Option ℕ) → Returned
  null : Returned
  unset : Returned
  exited : Returned
  bad_stream : Returned

-- The answers to `get_file_content`: whether there is a path, the stream of `fopen`, those of
-- `get_fp_size`, whether there is memory, the count of bytes of `fread` and the answer of `feof`.
pub record FileAnswers : Type 0 where
  pub path : Bool
  pub fopen : Option Stream
  pub size : SizeAnswers
  pub allocated : Bool
  pub read : ℕ
  pub eof : Bool

read_content : FileAnswers → (size : ℕ) → Stream → Returned
read_content a size fp =
    if a.allocated
    then if (if a.read == size then false else if a.eof then false else true)
      then null
      else content (
          map some (take a.read (drop fp.position fp.bytes))
          ++ (replicate (size - a.read) none ++ some 0 ∷ []))
    else exited

check_size : FileAnswers → (max_size : ℕ) → ℤ × Stream → Returned
unfolding read_content
check_size a max_size (negsuc n, fp) = unset
check_size a max_size (pos size, fp) = if ltb max_size size then unset else read_content a size fp

open_file : FileAnswers → (max_size : ℕ) → Option Stream → Returned
unfolding check_size get_fp_size
open_file a max_size none = unset
open_file a max_size (some fp) = check_size a max_size (get_fp_size a.size fp)

pub get_file_content : FileAnswers → (max_size : ℕ) → Returned
unfolding open_file
get_file_content a max_size = if a.path then open_file a max_size a.fopen else bad_stream
