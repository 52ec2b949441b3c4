-- ===== src/Gateway/Json/Strip.antt =====
-- os_json.c: the length of what json_strip leaves.
use linux_programing.Common.{
  ℕ, zero, suc, ◌+◌, ◌≤◌, ◌<◌, ◌≡◌, refl, Option, none, some, [], ◌∷◌, ◌++◌, length, ◌==◌, arith,
  length-append, Bool-cases, inl, inr,
}
use linux_programing.Gateway.Json.{
  Text, split_line, split_blanks, Start, line_comment, block_comment, other, start_of,
  after_comment, join, skip_two, turn, strip_line, finish, strip, json_strip,
}

-- The bytes of a turn: those before the next line, and those from it on.
abbrev pub size : Text × Option Text → ℕ
size (before, none) = length before
size (before, some next) = length before + length next

length-join :
    (line : Text) (next : Option Text)
    → length (join line next)
      ≡ length line + size ([], next) + (elim next [ none ↦ 0 | some t ↦ 1 ])
length-join line none = omega arith
length-join line (some rest) = omega (arith, length-append line (10 ∷ rest))

length-join_cons :
    (c : ℕ) (line : Text) (next : Option Text)
    → length (join (c ∷ line) next) ≡ suc (length (join line next))
length-join_cons c line none = refl
length-join_cons c line (some rest) = refl

split_line-length :
    (text : Text) → length (join (split_line text).0 (split_line text).1) ≡ length text
unfolding split_line
split_line-length [] = refl
split_line-length (c ∷ text) = elim (Bool-cases (c == 10)) [
  | inl e ↦ rw e refl
  | inr ne ↦
      rw (ne, length-join_cons c (split_line text).0 (split_line text).1, split_line-length text)
        refl
]

split_blanks-length :
    (text : Text) → length (split_blanks text).0 + length (split_blanks text).1 ≡ length text
unfolding split_blanks
split_blanks-length [] = refl
split_blanks-length (c ∷ text) = ground (arith, split_blanks-length text)

-- What is left behind a comment is shorter.
abbrev pub Shorter : ℕ → Option Text → Type 0
Shorter n none = Unit
Shorter n (some rest) = length rest < n

Shorter-mono : (n k : ℕ) (next : Option Text) → n ≤ k → Shorter n next → Shorter k next
Shorter-mono n k none h s = tt
Shorter-mono n k (some rest) h s = omega (arith, s)

after_comment-Shorter : (text : Text) → Shorter (length text) (after_comment text)
unfolding after_comment
after_comment-Shorter [] = tt
after_comment-Shorter (a ∷ []) = tt
after_comment-Shorter (a ∷ b ∷ text) =
    let later =
      Shorter-mono (length (b ∷ text)) (length (a ∷ b ∷ text)) (after_comment (b ∷ text))
        (omega arith) (after_comment-Shorter (b ∷ text)) in
    elim (Bool-cases (a == 42)) [
      | inr ne ↦ rw ne later
      | inl e ↦ elim (Bool-cases (b == 47)) [
        | inl f ↦ rw (e, f) (omega arith)
        | inr nf ↦ rw (e, nf) later
      ]
    ]

length-skip_two : (text : Text) → length (skip_two text) ≤ length text
length-skip_two [] = omega arith
length-skip_two (a ∷ []) = omega arith
length-skip_two (a ∷ b ∷ text) = omega arith

-- A turn of the loop.
record Shrinks (n : ℕ) (r : Text × Option Text) : Type 0 where
  all : size r ≤ n
  next : Shorter n r.1

comment-Shrinks :
    (blanks text : Text) (rest : Option Text)
    → Shorter (length text) rest
    → Shrinks
        (length blanks + length text)
        (elim rest [ none ↦ (blanks ++ text, none) | some next ↦ (blanks, some next) ])
comment-Shrinks blanks text none s = record {
  all = omega (arith, length-append blanks text);
  next = tt;
}
comment-Shrinks blanks text (some next) s = record {
  all = omega (arith, s);
  next = omega (arith, s);
}

turn-Shrinks :
    (st : Start) (blanks cursor : Text) (next : Option Text)
    → Shrinks (length blanks + length (join cursor next)) (turn st blanks cursor next)
unfolding turn
turn-Shrinks line_comment blanks cursor none = record { all = omega arith; next = tt }
turn-Shrinks line_comment blanks cursor (some next) =
    let back = length-append cursor (10 ∷ next) in
    record { all = omega (arith, length-append blanks (10 ∷ []), back); next = omega (arith, back) }
turn-Shrinks block_comment blanks cursor next =
    comment-Shrinks blanks (join cursor next) (after_comment (skip_two (join cursor next))) (
      Shorter-mono (length (skip_two (join cursor next))) (length (join cursor next))
        (after_comment (skip_two (join cursor next))) (length-skip_two (join cursor next))
        (after_comment-Shorter (skip_two (join cursor next))))
turn-Shrinks other blanks cursor none = record {
  all = omega (arith, length-append blanks cursor);
  next = tt;
}
turn-Shrinks other blanks cursor (some next) =
    let back = length-append cursor (10 ∷ next) in
    record {
      all =
          omega (
            arith,
            length-append blanks (cursor ++ (10 ∷ [])),
            length-append cursor (10 ∷ []),
            back,
          );
      next = omega (arith, back);
    }

length-join_split :
    (line : Text) (next : Option Text)
    → length (split_blanks line).0 + length (join (split_blanks line).1 next)
      ≡ length (join line next)
length-join_split line next =
    omega (
      arith,
      length-join line next,
      length-join (split_blanks line).1 next,
      split_blanks-length line,
    )

strip_line-Shrinks : (text : Text) → Shrinks (length text) (strip_line text)
unfolding strip_line
strip_line-Shrinks text =
    let line = split_line text in
    let cursor = split_blanks line.0 in
    rw (← split_line-length text, ← length-join_split line.0 line.1)
      (turn-Shrinks (start_of cursor.1) cursor.0 cursor.1 line.1)

finish-bounded :
    (r : Text × Option Text) (n : ℕ) (loop : Text → Option Text)
    → Shrinks n r
    → ((next : Text)
        → length next < n
        → (out : Text) × (loop next ≡ some out) × (length out ≤ length next))
    → (out : Text) × (finish r loop ≡ some out) × (length out ≤ n)
unfolding finish
finish-bounded (before, none) n loop s ends = (before, refl, s.all)
finish-bounded (before, some next) n loop s ends =
    let (out, e, h) = ends next s.next in
    (before ++ out, rw (e, finish) refl, omega (arith, length-append before out, h, s.all))

strip-bounded :
    (fuel : ℕ) (text : Text)
    → length text < fuel
    → (out : Text) × (strip fuel text ≡ some out) × (length out ≤ length text)
unfolding strip
strip-bounded zero text h = absurd (omega arith)
strip-bounded (suc fuel) text h =
    finish-bounded (strip_line text) (length text) (λ next. strip fuel next)
      (strip_line-Shrinks text) λ next lt. strip-bounded fuel next (omega (arith, lt, h))

-- `json_strip` ends on every text, and its result is no longer than the text, so that it fits in
-- the place of the text.
pub json_strip-bounded :
    (text : Text) → (out : Text) × (json_strip text ≡ some out) × (length out ≤ length text)
unfolding json_strip
json_strip-bounded text = strip-bounded (length text + 1) text (omega arith)
