-- ===== src/FileIo/Locks/Contents.antt =====
-- 02-linux-file-system/fcntl: what the file holds, and which bytes are locked.
use mathlib.Core.List.{append_assoc}
use mathlib.Core.Path.{subst}
use linux_programing.Common.{
  ℕ, ◌+◌, ◌-◌, ◌≡◌, ◌≢◌, ◌⊎◌, refl, sym, ap, ◌∙◌, Bool, true, false, Option, some, List, ◌++◌,
  length, take, drop, replicate, length-append, length-take, length-replicate, drop-append, arith,
}
use linux_programing.FileIo.{write_at}
use linux_programing.FileIo.Locks.{
  PlaceA, a_open, a_write, a_lock, a_sleep, a_ended, PlaceB, b_open, b_lock1, b_lock2, b_write,
  b_ended, State, text_a, text_b, contents, a_at, a_step, b_at, b_step, killed_a, run_a, run_b,
  kill_a, Reach, start, next,
}

-- Behind the bytes that it writes, `write` leaves the file as it is.
drop-write_at :
    (offset : ℕ) (bytes file : List ℕ)
    → drop (offset + length bytes) (write_at offset bytes file) ≡ drop (offset + length bytes) file
unfolding write_at
drop-write_at offset bytes file =
    let front : List ℕ = take offset (file ++ replicate (offset - length file) 0) in
    let long : length (front ++ bytes) ≡ offset + length bytes = omega (
      arith,
      length-append front bytes,
      length-take offset (file ++ replicate (offset - length file) 0),
      length-append file (replicate (offset - length file) 0),
      length-replicate {A = ℕ} (offset - length file) 0,
    ) in
    ap (drop (offset + length bytes))
      (sym (append_assoc front bytes (drop (offset + length bytes) file)))
    ∙ drop-append (front ++ bytes) (drop (offset + length bytes) file) (offset + length bytes)
        (sym long)

-- The two processes' writes.
write_at-text_a : (file : List ℕ) → write_at 0 text_a file ≡ text_a ++ drop 15 file
unfolding write_at
write_at-text_a file = refl

write_at-text_b :
    (rest : List ℕ) → write_at 6 text_b (text_a ++ rest) ≡ take 6 text_a ++ (text_b ++ rest)
unfolding write_at
write_at-text_b rest = refl

-- The file behind A's write, and also behind that of B.
abbrev pub written_a : (before : List ℕ) → List ℕ
written_a before = text_a ++ drop 15 before

abbrev pub written_both : (before : List ℕ) → List ℕ
written_both before = take 6 text_a ++ (text_b ++ drop 15 before)

abbrev Kept : (wrote : Bool) → (before : List ℕ) → State → Type 0
Kept false before s = drop 15 (contents s.file) ≡ drop 15 before
Kept true before s =
    (s.file ≡ some (written_a before)) ⊎ ((s.file ≡ some (written_both before)) × (s.b ≡ b_ended))

abbrev Written : PlaceA → (wrote : Bool) → Type 0
Written a_open wrote = wrote ≡ false
Written a_write wrote = wrote ≡ false
Written a_lock wrote = wrote ≡ true
Written a_sleep wrote = wrote ≡ true
Written a_ended wrote = Unit

record IsFile (before : List ℕ) (s : State) : Type 0 where
  kept : Kept s.wrote before s
  written : Written s.a s.wrote

a-IsFile :
    (p : PlaceA) (ok : Bool) (before : List ℕ) (s t : State)
    → s.a ≡ p
    → a_at p ok s ≡ some t
    → IsFile before s
    → IsFile before t
unfolding a_at
a-IsFile a_open ok before s t at e v = ground (arith, at, e, v)
a-IsFile a_write ok before s t at e v = ground (arith, at, e, v, write_at-text_a (contents s.file))
a-IsFile a_lock ok before s t at e v = ground (arith, at, e, v)
a-IsFile a_sleep ok before s t at e v = cc
a-IsFile a_ended ok before s t at e v = cc

abbrev Same : State → State → Type 0
Same s t = (t.file ≡ s.file) × (t.wrote ≡ s.wrote) × (t.a ≡ s.a)

lock1-Same : (ok : Bool) (s t : State) → b_at b_lock1 ok s ≡ some t → Same s t
unfolding b_at
lock1-Same ok s t e = ground (arith, e)

lock2-Same : (ok : Bool) (s t : State) → b_at b_lock2 ok s ≡ some t → Same s t
unfolding b_at
lock2-Same ok s t e = ground (arith, e)

Kept-Same :
    (wrote : Bool) (before : List ℕ) (s t : State)
    → s.wrote ≡ wrote
    → Same s t
    → s.b ≢ b_ended
    → IsFile before s
    → IsFile before t
Kept-Same false before s t w same ne v = ground (arith, w, same, v)
Kept-Same true before s t w same ne v = ground (arith, w, same, ne, v)

IsFile-Same :
    (before : List ℕ) (s t : State) → Same s t → s.b ≢ b_ended → IsFile before s → IsFile before t
IsFile-Same before s t same ne v = Kept-Same s.wrote before s t refl same ne v

-- Before and behind the write of A.
b_write-IsFile :
    (wrote ok : Bool) (before : List ℕ) (s t : State)
    → s.wrote ≡ wrote
    → s.b ≡ b_write
    → b_at b_write ok s ≡ some t
    → IsFile before s
    → IsFile before t
unfolding b_at
b_write-IsFile false false before s t w at e v = ground (arith, w, at, e, v)
b_write-IsFile false true before s t w at e v =
    ground (arith, w, at, e, v, drop-write_at 6 text_b (contents s.file))
b_write-IsFile true false before s t w at e v = ground (arith, w, at, e, v)
b_write-IsFile true true before s t w at e v =
    ground (arith, w, at, e, v, write_at-text_b (drop 15 before))

b-IsFile :
    (p : PlaceB) (ok : Bool) (before : List ℕ) (s t : State)
    → s.b ≡ p
    → b_at p ok s ≡ some t
    → IsFile before s
    → IsFile before t
unfolding b_at
b-IsFile b_open ok before s t at e v = ground (arith, at, e, v)
b-IsFile b_lock1 ok before s t at e v = IsFile-Same before s t (lock1-Same ok s t e) (λ q. cc) v
b-IsFile b_lock2 ok before s t at e v = IsFile-Same before s t (lock2-Same ok s t e) (λ q. cc) v
b-IsFile b_write ok before s t at e v = b_write-IsFile s.wrote ok before s t refl at e v
b-IsFile b_ended ok before s t at e v = cc

killed-IsFile : (before : List ℕ) (s : State) → IsFile before s → IsFile before (killed_a s)
unfolding killed_a
killed-IsFile before s v = ground (arith, v)

Reach-IsFile : {file : Option (List ℕ)} {s : State} → Reach file s → IsFile (contents file) s
Reach-IsFile start = record { kept = refl; written = refl }
Reach-IsFile {file} (next {s} {t} r (run_a ok e)) =
    a-IsFile s.a ok (contents file) s t refl (unfold a_step in e) (Reach-IsFile r)
Reach-IsFile {file} (next {s} {t} r (run_b ok e)) =
    b-IsFile s.b ok (contents file) s t refl (unfold b_step in e) (Reach-IsFile r)
Reach-IsFile {file} (next {s} r kill_a) = killed-IsFile (contents file) s (Reach-IsFile r)

-- However the processes interleave, and whichever locks they are given, once process A has written the
-- file holds its text, or the first six bytes of its text and then that of process B, which has then
-- ended; and what the file held behind byte 15 is still there.
pub wrote-file :
    {file : Option (List ℕ)} {s : State}
    → Reach file s
    → s.wrote ≡ true
    → (s.file ≡ some (text_a ++ drop 15 (contents file)))
      ⊎ ((s.file ≡ some (take 6 text_a ++ (text_b ++ drop 15 (contents file)))) × (s.b ≡ b_ended))
wrote-file {file} {s} r e = let v = Reach-IsFile r in subst (λ w. Kept w (contents file) s) e v.kept
