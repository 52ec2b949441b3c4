-- ===== src/FileIo/Locks/Held.antt =====
-- 02-linux-file-system/fcntl: which bytes the two processes have locked.
use linux_programing.Common.{
  ℕ, ◌+◌, ◌<◌, ◌≡◌, ◌⊎◌, length, inl, inr, refl, Bool, true, false, Option, some, List, [], ◌∷◌,
  arith,
}
use linux_programing.FileIo.Locks.{
  Flock, apart, PlaceA, a_open, a_write, a_lock, a_sleep, a_ended, PlaceB, b_open, b_lock1, b_lock2,
  b_write, b_ended, State, bytes_1_to_5, second_lock, text_b, a_at, a_step, b_at, b_step, killed_a,
  run_a, run_b, kill_a, Reach, start, next,
}

-- Whether a process holds bytes 1 to 5.
abbrev HeldA : Bool → PlaceA → List Flock → Type 0
HeldA true p locks = (locks ≡ bytes_1_to_5 ∷ []) × (p ≡ a_sleep)
HeldA false p locks = locks ≡ []

abbrev HeldB : Bool → PlaceB → List Flock → Type 0
HeldB true b_lock2 locks = locks ≡ bytes_1_to_5 ∷ []
HeldB true b_write locks = locks ≡ second_lock ∷ bytes_1_to_5 ∷ []
HeldB true p locks = ⊥
HeldB false b_write locks = locks ≡ second_lock ∷ []
HeldB false p locks = locks ≡ []

abbrev NotBoth : Bool → Bool → Type 0
NotBoth true true = ⊥
NotBoth a b = Unit

abbrev IsHeld : State → Bool → Bool → Type 0
IsHeld s ha hb = HeldA ha s.a s.locks_a × HeldB hb s.b s.locks_b × NotBoth ha hb

abbrev Held : State → Type 0
Held s = (ha : Bool) × (hb : Bool) × IsHeld s ha hb

a-IsHeld :
    (p : PlaceA) (ok ha hb : Bool) (s t : State)
    → s.a ≡ p
    → a_at p ok s ≡ some t
    → IsHeld s ha hb
    → Held t
unfolding a_at apart
a-IsHeld a_open ok true hb s t at e v = ground (arith, at, v)
a-IsHeld a_open ok false hb s t at e v = (false, hb, ground (arith, at, e, v))
a-IsHeld a_write ok true hb s t at e v = ground (arith, at, v)
a-IsHeld a_write ok false hb s t at e v = (false, hb, ground (arith, at, e, v))
a-IsHeld a_lock ok true hb s t at e v = ground (arith, at, v)
a-IsHeld a_lock true false false s t at e v = (true, false, ground (arith, at, e, v))
a-IsHeld a_lock true false true s t at e v = (false, true, ground (arith, at, e, v))
a-IsHeld a_lock false false hb s t at e v = (false, hb, ground (arith, at, e, v))
a-IsHeld a_sleep ok ha hb s t at e v = cc
a-IsHeld a_ended ok ha hb s t at e v = cc

b-IsHeld :
    (p : PlaceB) (ok ha hb : Bool) (s t : State)
    → s.b ≡ p
    → b_at p ok s ≡ some t
    → IsHeld s ha hb
    → Held t
unfolding b_at apart
b-IsHeld b_open ok ha true s t at e v = ground (arith, at, v)
b-IsHeld b_open ok ha false s t at e v = (ha, false, ground (arith, at, e, v))
b-IsHeld b_lock1 ok ha true s t at e v = ground (arith, at, v)
b-IsHeld b_lock1 true true false s t at e v = (true, false, ground (arith, at, e, v))
b-IsHeld b_lock1 true false false s t at e v = (false, true, ground (arith, at, e, v))
b-IsHeld b_lock1 false ha false s t at e v = (ha, false, ground (arith, at, e, v))
b-IsHeld b_lock2 true ha hb s t at e v = (ha, hb, ground (arith, at, e, v))
b-IsHeld b_lock2 false ha hb s t at e v = (ha, false, ground (arith, at, e, v))
b-IsHeld b_write ok ha hb s t at e v = (ha, false, ground (arith, at, e, v))
b-IsHeld b_ended ok ha hb s t at e v = cc

killed-IsHeld : (ha hb : Bool) (s : State) → IsHeld s ha hb → IsHeld (killed_a s) false hb
unfolding killed_a
killed-IsHeld ha hb s v = ground (arith, v)

Reach-Held : {file : Option (List ℕ)} {s : State} → Reach file s → Held s
Reach-Held start = (false, false, (refl, refl, tt))
Reach-Held (next {s} {t} r (run_a ok e)) =
    let (ha, hb, v) = Reach-Held r in a-IsHeld s.a ok ha hb s t refl (unfold a_step in e) v
Reach-Held (next {s} {t} r (run_b ok e)) =
    let (ha, hb, v) = Reach-Held r in b-IsHeld s.b ok ha hb s t refl (unfold b_step in e) v
Reach-Held (next {s} r kill_a) =
    let (ha, hb, v) = Reach-Held r in (false, hb, killed-IsHeld ha hb s v)

held-apart :
    (ha hb : Bool) (s : State)
    → IsHeld s ha hb
    → s.b ≡ b_write
    → (apart second_lock s.locks_a ≡ true)
      × ((s.locks_b ≡ second_lock ∷ [])
          ⊎ ((s.locks_b ≡ second_lock ∷ bytes_1_to_5 ∷ []) × (s.locks_a ≡ [])))
unfolding apart
held-apart true true s v e = ground (arith, v)
held-apart true false s v e = (ground (arith, v), inl (ground (arith, v, e)))
held-apart false true s v e = (ground (arith, v), inr (ground (arith, v, e), ground (arith, v)))
held-apart false false s v e = (ground (arith, v), inl (ground (arith, v, e)))

-- Whenever process B is about to write it has the lock on bytes 6 to 13, and process A has a lock on
-- none of these; B has bytes 1 to 5 as well only while A has no lock at all.
pub b_write-held :
    {file : Option (List ℕ)} {s : State}
    → Reach file s
    → s.b ≡ b_write
    → (apart second_lock s.locks_a ≡ true)
      × ((s.locks_b ≡ second_lock ∷ [])
          ⊎ ((s.locks_b ≡ second_lock ∷ bytes_1_to_5 ∷ []) × (s.locks_a ≡ [])))
b_write-held {s} r e = let (ha, hb, v) = Reach-Held r in held-apart ha hb s v e

-- `write` reaches past the lock: the last of the bytes that process B writes is byte 14.
text_b-past : second_lock.l_start + second_lock.l_len < 6 + length text_b
text_b-past = omega arith
