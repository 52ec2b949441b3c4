-- ===== src/SharedMemory/Text.antt =====
-- 08-shared-memory/systemD-shared-memory: what a reader prints behind a series of runs.
use mathlib.Core.List.{append_assoc}
use mathlib.Core.Path.{subst}
use linux_programing.Common.{
  ℕ, zero, suc, ◌-◌, ◌≤◌, ◌<◌, ◌≡◌, ◌≢◌, refl, sym, ap, if◌then◌else◌, ◌∙◌, Bool, true, false,
  Option, none, some, List, [], ◌∷◌, ◌++◌, length, take, drop, replicate, length-append,
  length-take, length-replicate, arith,
}
use linux_programing.SharedMemory.{
  shared_mem_size, map_shared, Answers, Outcome, printed, ftruncate, strcpy_object, c_string,
  copy_text, print_text, bytes_of, run_writer, run_reader, Run, writer, reader, runs,
}

abbrev pub NoZero : List ℕ → Type 0
NoZero [] = Unit
NoZero (c ∷ text) = (c ≢ 0) × NoZero text

-- The object begins with the text and a NUL.
abbrev Holds : (text object : List ℕ) → Type 0
Holds text object = (rest : List ℕ) × (object ≡ text ++ 0 ∷ rest)

c_string-Holds : (text rest : List ℕ) → NoZero text → c_string (text ++ 0 ∷ rest) ≡ text
unfolding c_string
c_string-Holds [] rest nz = refl
c_string-Holds (c ∷ text) rest (ne, nz) = ground (arith, ne, c_string-Holds text rest nz)

take-Holds : (n : ℕ) (text rest : List ℕ) → length text < n → Holds text (take n (text ++ 0 ∷ rest))
take-Holds zero text rest lt = absurd (omega arith)
take-Holds (suc n) [] rest lt = (take n rest, refl)
take-Holds (suc n) (c ∷ text) rest lt =
    let (tail, e) = take-Holds n text rest (omega arith) in (tail, ap (λ t. c ∷ t) e)

ftruncate-Holds :
    (ok : Bool) (text object : List ℕ)
    → length text < shared_mem_size
    → Holds text object
    → Holds text (ftruncate ok object)
unfolding ftruncate
ftruncate-Holds false text object lt h = h
ftruncate-Holds true text object lt (rest, e) =
    let (tail, q) =
      take-Holds shared_mem_size text (rest ++ replicate (shared_mem_size - length object) 0) lt in
    (
      tail,
      ap (λ t. take shared_mem_size (t ++ replicate (shared_mem_size - length object) 0)) e
          ∙ ap (take shared_mem_size)
              (append_assoc text (0 ∷ rest) (replicate (shared_mem_size - length object) 0))
          ∙ q,
    )

Holds-length : (text object : List ℕ) → Holds text object → length text < length object
Holds-length text object (rest, e) =
    subst (λ o. length text < length o) (sym e)
      (subst (λ n. length text < n) (sym (length-append text (0 ∷ rest))) (omega arith))

strcpy_object-Holds :
    (text object : List ℕ) → length text < length object → Holds text (strcpy_object text object)
unfolding strcpy_object
strcpy_object-Holds text object lt =
    take-Holds (length object) text (drop (length (text ++ 0 ∷ [])) object) lt

-- A shared mapping leaves the text in the object.
copy_text-Holds :
    (text : List ℕ) (mapped : Bool) (object : List ℕ)
    → Holds text object
    → Holds text (copy_text map_shared text mapped object).1
unfolding copy_text
copy_text-Holds text false object h = h
copy_text-Holds text true [] h = h
copy_text-Holds text true (c ∷ object) h =
    strcpy_object-Holds text (c ∷ object) (Holds-length text (c ∷ object) h)

copied-Holds :
    (text object : List ℕ)
    → length text < length object
    → Holds text (copy_text map_shared text true object).1
unfolding copy_text
copied-Holds text [] lt = absurd (omega arith)
copied-Holds text (c ∷ object) lt = strcpy_object-Holds text (c ∷ object) lt

abbrev pub Present : (text : List ℕ) → Option (List ℕ) → Type 0
Present text none = ⊥
Present text (some object) = Holds text object

if-Present :
    (text : List ℕ) (b : Bool) (x y : Outcome × Option (List ℕ))
    → Present text x.1
    → Present text y.1
    → Present text (if b then x else y).1
if-Present text true x y h k = h
if-Present text false x y h k = k

run_writer-Present :
    (text : List ℕ) (a : Answers) (object : Option (List ℕ))
    → length text < shared_mem_size
    → Present text object
    → Present text (run_writer map_shared text a object).1
unfolding run_writer
run_writer-Present text a none lt h = absurd h
run_writer-Present text a (some object) lt h =
    if-Present text a.opened _ _
      (copy_text-Holds text a.mapped (ftruncate a.truncated object)
        (ftruncate-Holds a.truncated text object lt h))
      h

run_reader-Present :
    (text : List ℕ) (a : Answers) (object : Option (List ℕ))
    → length text < shared_mem_size
    → Present text object
    → Present text (run_reader a object).1
unfolding run_reader
run_reader-Present text a none lt h = absurd h
run_reader-Present text a (some object) lt h =
    if-Present text a.opened _ _ (ftruncate-Holds a.truncated text object lt h) h

runs-Present :
    (text : List ℕ) (rs : List Run) (object : Option (List ℕ))
    → length text < shared_mem_size
    → Present text object
    → Present text (runs map_shared text rs object)
unfolding runs
runs-Present text [] object lt h = h
runs-Present text (writer a ∷ rs) object lt h =
    runs-Present text rs _ lt (run_writer-Present text a object lt h)
runs-Present text (reader a ∷ rs) object lt h =
    runs-Present text rs _ lt (run_reader-Present text a object lt h)

-- A reader for which everything succeeds.
abbrev pub granted : Answers
granted = record { opened = true; truncated = true; mapped = true }

print_text-Holds :
    (text object : List ℕ) → NoZero text → Holds text object → print_text true object ≡ printed text
unfolding print_text
print_text-Holds text [] nz h = absurd (omega (Holds-length text [] h, arith))
print_text-Holds text (c ∷ object) nz (rest, e) =
    ap (λ t. printed (c_string t)) e ∙ ap printed (c_string-Holds text rest nz)

granted-Present :
    (text : List ℕ) (object : Option (List ℕ))
    → NoZero text
    → length text < shared_mem_size
    → Present text object
    → (run_reader granted object).0 ≡ printed text
unfolding run_reader
granted-Present text none nz lt h = absurd h
granted-Present text (some object) nz lt h =
    print_text-Holds text (ftruncate true object) nz (ftruncate-Holds true text object lt h)

length-ftruncate : (object : List ℕ) → shared_mem_size ≤ length (ftruncate true object)
unfolding ftruncate
length-ftruncate object = omega (
  length-take shared_mem_size (object ++ replicate (shared_mem_size - length object) 0),
  length-append object (replicate (shared_mem_size - length object) 0),
  length-replicate {A = ℕ} (shared_mem_size - length object) 0,
  arith,
)

written-Present :
    (text : List ℕ) (object : Option (List ℕ))
    → length text < shared_mem_size
    → Present text (run_writer map_shared text granted object).1
unfolding run_writer
written-Present text object lt =
    copied-Holds text (ftruncate true (bytes_of object))
      (omega (length-ftruncate (bytes_of object), arith))

-- Once a writer of file-mapping has written its text, which has no NUL and is shorter than the object,
-- the reader prints exactly that text whenever its calls succeed, whatever stood in the object before
-- and whatever runs of the writer and of the reader lie between, where any call may fail.
pub written-printed :
    (text : List ℕ) (rs : List Run) (object : Option (List ℕ))
    → NoZero text
    → length text < shared_mem_size
    → (run_reader granted (runs map_shared text rs (run_writer map_shared text granted object).1)).0
      ≡ printed text
written-printed text rs object nz lt =
    granted-Present text _ nz lt (runs-Present text rs _ lt (written-Present text object lt))
