-- ===== src/SharedMemory.antt =====
-- 08-shared-memory/systemD-shared-memory: writter.c, file-mapping/writter.c and file-mapping/reader.c. A
-- shared memory object is the list of its bytes, and `none` when the name has none; the two writers use
-- different names. What the system answers is an argument of a run.
pub mod Text
mod Tests
use linux_programing.Common.{
  ℕ, ◌-◌, Bool, true, false, Option, none, some, List, [], ◌∷◌, ◌++◌, ◌==◌, length, take, drop,
  replicate, if◌then◌else◌,
}

-- `SHARED_MEM_SIZE`
abbrev pub shared_mem_size : ℕ
shared_mem_size = 100

-- `MAP_SHARED` and `MAP_PRIVATE`.
pub data Mapping : Type 0 where
  map_shared map_private : Mapping

-- Whether `shm_open`, `ftruncate` and `mmap` succeed.
pub record Answers : Type 0 where
  pub opened : Bool
  pub truncated : Bool
  pub mapped : Bool

-- A run has returned -1, was ended by an access that failed, has ended, or has printed a text and ended.
pub data Outcome : Type 0 where
  failed crashed written : Outcome
  printed : List ℕ → Outcome

-- `ftruncate(fd, SHARED_MEM_SIZE)`, whose result is not looked at.
pub ftruncate : (ok : Bool) → (object : List ℕ) → List ℕ
ftruncate ok object =
    if ok
    then take shared_mem_size (object ++ replicate (shared_mem_size - length object) 0)
    else object

-- `strcpy` through a shared mapping: what lies behind the end of the object does not reach it.
pub strcpy_object : (text object : List ℕ) → List ℕ
strcpy_object text object =
    take (length object) (text ++ (0 ∷ drop (length (text ++ 0 ∷ [])) object))

-- The text up to the first NUL; the page is zero behind the end of the object.
pub c_string : List ℕ → List ℕ
c_string [] = []
c_string (c ∷ bytes) = let rest = c_string bytes in if c == 0 then [] else c ∷ rest

-- `strcpy` through the mapping. With no page behind it the access raises SIGBUS, and MAP_FAILED is no
-- address. A private mapping has a copy of its own.
copy_text : Mapping → (text : List ℕ) → (mapped : Bool) → (object : List ℕ) → Outcome × List ℕ
unfolding strcpy_object
copy_text m text false object = (crashed, object)
copy_text m text true [] = (crashed, [])
copy_text map_shared text true (c ∷ object) = (written, strcpy_object text (c ∷ object))
copy_text map_private text true (c ∷ object) = (written, c ∷ object)

print_text : (mapped : Bool) → (object : List ℕ) → Outcome
unfolding c_string
print_text false object = crashed
print_text true [] = crashed
print_text true (c ∷ object) = printed (c_string (c ∷ object))

abbrev pub bytes_of : Option (List ℕ) → List ℕ
bytes_of none = []
bytes_of (some object) = object

-- `main` of the writers, which open with O_CREAT.
pub run_writer : Mapping → (text : List ℕ) → Answers → Option (List ℕ) → Outcome × Option (List ℕ)
unfolding ftruncate copy_text
run_writer m text a object =
    if a.opened
    then (let (outcome, after) =
          copy_text m text a.mapped (ftruncate a.truncated (bytes_of object)) in
        (outcome, some after))
    else (failed, object)

-- `main` of the reader.
pub run_reader : Answers → Option (List ℕ) → Outcome × Option (List ℕ)
unfolding ftruncate print_text
run_reader a none = (failed, none)
run_reader a (some object) =
    if a.opened
    then (let after = ftruncate a.truncated object in (print_text a.mapped after, some after))
    else (failed, some object)

pub data Run : Type 0 where
  writer reader : Answers → Run

-- The object behind a series of runs on one name.
pub runs : Mapping → (text : List ℕ) → List Run → Option (List ℕ) → Option (List ℕ)
unfolding run_writer run_reader
runs m text [] object = object
runs m text (writer a ∷ rs) object = runs m text rs (run_writer m text a object).1
runs m text (reader a ∷ rs) object = runs m text rs (run_reader a object).1
