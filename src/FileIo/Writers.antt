-- ===== src/FileIo/Writers.antt =====
-- BTVN/02-file/ass1.c and ass2.c, which write to `filesystem.txt`: the one from the start of the file, the
-- other, with O_APPEND, at its end. Both create the file when there is none, as an empty one.
use mathlib.Core.List.{append_assoc, append-nil}
use linux_programing.Common.{
  codes, ℕ, zero, suc, ◌+◌, ◌-◌, ◌≤◌, ◌≡◌, refl, sym, ap, ◌∙◌, Bool, true, Option, List, ◌&&◌, [],
  ◌∷◌, ◌++◌, length, drop, if◌then◌else◌, take-append, drop-append, arith,
}
use linux_programing.FileIo.{write_at}
use linux_programing.FileIo.FileType.{Text, get_file_type}

unfoldable pub konichiwa : List ℕ
konichiwa = codes "Konichiwa\n"

unfoldable pub appended_line : List ℕ
appended_line =
    codes
      "All write operations will always append the data to the end of the file, regardless of the file offset set by lseek\n"

-- What the system answers to a run: whether each call succeeds, where `write` is to write all bytes, and
-- the mode that `fstat` finds.
pub record Answers : Type 0 where
  pub opened : Bool
  pub placed : Bool
  pub written : Bool
  pub statted : Bool
  pub st_mode : ℕ

-- A run has failed and returned 1, has written, or has printed the type and the size as well.
pub data Outcome : Type 0 where
  failed wrote : Outcome
  reported : (type : Option Text) → (st_size : ℕ) → Outcome

-- `main` of ass1.c.
pub run_ass1 : Answers → (file : List ℕ) → Outcome × List ℕ
unfolding write_at get_file_type
run_ass1 a file =
    if a.opened && a.written
    then (let file' = write_at 0 konichiwa file in
        (if a.statted then reported (get_file_type a.st_mode) (length file') else failed, file'))
    else (failed, file)

-- `main` of ass2.c: `lseek` moves the offset to the start, and O_APPEND has `write` go to the end.
pub run_ass2 : Answers → (file : List ℕ) → Outcome × List ℕ
unfolding write_at
run_ass2 a file =
    if a.opened && (a.placed && a.written)
    then (wrote, write_at (length file) appended_line file)
    else (failed, file)

pub data Run : Type 0 where
  ass1 ass2 : Answers → Run

-- The file behind a series of runs.
pub runs : List Run → (file : List ℕ) → List ℕ
unfolding run_ass1 run_ass2
runs [] file = file
runs (ass1 a ∷ rs) file = runs rs (run_ass1 a file).1
runs (ass2 a ∷ rs) file = runs rs (run_ass2 a file).1

-- What the runs of ass2.c append.
pub line_of : Answers → List ℕ
line_of a = if a.opened && (a.placed && a.written) then appended_line else []

pub appended : List Run → List ℕ
appended [] = []
appended (ass1 a ∷ rs) = appended rs
appended (ass2 a ∷ rs) = line_of a ++ appended rs

drop-all : (n : ℕ) (xs : List ℕ) → length xs ≤ n → drop n xs ≡ []
drop-all zero [] h = refl
drop-all zero (x ∷ xs) h = absurd (omega arith)
drop-all (suc n) [] h = refl
drop-all (suc n) (x ∷ xs) h = drop-all n xs (omega arith)

write_at-end : (bytes file : List ℕ) → write_at (length file) bytes file ≡ file ++ bytes
unfolding write_at
write_at-end bytes file =
    let gap : length file - length file ≡ 0 = omega arith in
    rw
      (
        gap,
        take-append file [] (length file) refl,
        drop-all (length file + length bytes) file (omega arith),
        append-nil bytes,
      )
      refl

write_at-start : (bytes file : List ℕ) → write_at 0 bytes file ≡ bytes ++ drop (length bytes) file
unfolding write_at
write_at-start bytes file = ap (λ (n : ℕ). bytes ++ drop n file) (omega arith)

run_ass1-again :
    (a : Answers) (tail : List ℕ) → (run_ass1 a (konichiwa ++ tail)).1 ≡ konichiwa ++ tail
unfolding run_ass1
run_ass1-again a tail = ground (
  arith,
  write_at-start konichiwa (konichiwa ++ tail),
  drop-append konichiwa tail (length konichiwa) refl,
)

run_ass2-line : (a : Answers) (file : List ℕ) → (run_ass2 a file).1 ≡ file ++ line_of a
unfolding run_ass2 line_of
run_ass2-line a file = ground (arith, write_at-end appended_line file, append-nil file)

runs-start :
    (rs : List Run) (tail : List ℕ)
    → runs rs (konichiwa ++ tail) ≡ konichiwa ++ (tail ++ appended rs)
unfolding runs appended
runs-start [] tail = ap (λ t. konichiwa ++ t) (sym (append-nil tail))
runs-start (ass1 a ∷ rs) tail = ap (runs rs) (run_ass1-again a tail) ∙ runs-start rs tail
runs-start (ass2 a ∷ rs) tail =
    ap (runs rs) (run_ass2-line a (konichiwa ++ tail) ∙ append_assoc konichiwa tail (line_of a))
    ∙ runs-start rs (tail ++ line_of a)
    ∙ ap (λ t. konichiwa ++ t) (append_assoc tail (line_of a) (appended rs))

-- When a run of ass1.c opens the file and writes, the file behind it and any further runs of both
-- programs, failed ones included, is its text, then what the file had behind the length of that text, then
-- one line for each run of ass2.c whose calls succeed: a further run of ass1.c changes nothing, and
-- `lseek` has no effect on where ass2.c writes.
pub runs-ass1 :
    (a : Answers) (rs : List Run) (file : List ℕ)
    → a.opened ≡ true
    → a.written ≡ true
    → runs (ass1 a ∷ rs) file ≡ konichiwa ++ (drop (length konichiwa) file ++ appended rs)
unfolding runs
runs-ass1 a rs file o w =
    let wrote_all : (run_ass1 a file).1 ≡ konichiwa ++ drop (length konichiwa) file =
      unfold run_ass1 in ground (arith, o, w, write_at-start konichiwa file) in
    ap (runs rs) wrote_all ∙ runs-start rs (drop (length konichiwa) file)
