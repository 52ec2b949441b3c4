-- ===== src/Gateway/Sort/Merge.antt =====
-- os_gen.c: what `merge` makes of a part of an array.
use mathlib.Core.List.{append_assoc, Perm, append-nil, perm_middle}
use mathlib.Core.List.Perm
use linux_programing.Common.{
  ℕ, zero, suc, ◌+◌, ◌-◌, ◌≡◌, refl, ◌∙◌, ap, true, false, some, List, [], ◌∷◌, ◌++◌, ltb,
  get_elem?, set, length, length-append, arith, Bool-cases, inl, inr,
}
use linux_programing.Common.Int.{ℤ, ◌≤ℤ◌, leb_ℤ, ≤ℤ_trans}
use linux_programing.Gateway.Order.{IsSorted, AllGe}
use linux_programing.Gateway.Sort.{◌>>=◌, write_at, copy, drain, merge_loop, merge}

-- The merge of two lists, as a list.
pub merged : List ℤ → List ℤ → List ℤ
merged [] ys = ys
merged (x ∷ xs) [] = x ∷ xs
merged (x ∷ xs) (y ∷ ys) = elim (leb_ℤ x y) [
  | true ↦ x ∷ merged xs (y ∷ ys)
  | false ↦ y ∷ merged (x ∷ xs) ys
]

module _ (x y : ℤ) (xs ys : List ℤ) where
  merged-left : leb_ℤ x y ≡ true → merged (x ∷ xs) (y ∷ ys) ≡ x ∷ merged xs (y ∷ ys)
  unfolding merged
  merged-left e = rw (e, merged)

  merged-right : leb_ℤ x y ≡ false → merged (x ∷ xs) (y ∷ ys) ≡ y ∷ merged (x ∷ xs) ys
  unfolding merged
  merged-right e = rw (e, merged)

  merge_loop-left :
      (a : List ℤ) (l : ℕ)
      → leb_ℤ x y ≡ true
      → merge_loop a l (x ∷ xs) (y ∷ ys)
        ≡ (write_at a l x >>= λ a'. merge_loop a' (l + 1) xs (y ∷ ys))
  unfolding merge_loop
  merge_loop-left a l e = rw (e, merge_loop)

  merge_loop-right :
      (a : List ℤ) (l : ℕ)
      → leb_ℤ x y ≡ false
      → merge_loop a l (x ∷ xs) (y ∷ ys)
        ≡ (write_at a l y >>= λ a'. merge_loop a' (l + 1) (x ∷ xs) ys)
  unfolding merge_loop
  merge_loop-right a l e = rw (e, merge_loop)

-- An array at its part: `pre`, the part, `post`.
set-middle :
    (pre post : List ℤ) (m v : ℤ) (l : ℕ)
    → l ≡ length pre
    → set (pre ++ (m ∷ post)) l v ≡ pre ++ (v ∷ post)
set-middle [] post m v zero e = refl
set-middle [] post m v (suc l) e = absurd (omega arith)
set-middle (p ∷ pre) post m v zero e = absurd (omega arith)
set-middle (p ∷ pre) post m v (suc l) e = ap (λ t. p ∷ t) (set-middle pre post m v l (omega arith))

write_at-middle :
    (pre post : List ℤ) (m v : ℤ) (l : ℕ)
    → l ≡ length pre
    → write_at (pre ++ (m ∷ post)) l v ≡ some (pre ++ (v ∷ post))
unfolding write_at
write_at-middle [] post m v zero e = let h : ltb 0 (length (m ∷ post)) ≡ true = ground arith in rw h
write_at-middle [] post m v (suc l) e = absurd (omega arith)
write_at-middle (p ∷ pre) post m v zero e = absurd (omega arith)
write_at-middle (p ∷ pre) post m v (suc l) e =
    let h : ltb (suc l) (length (p ∷ (pre ++ (m ∷ post)))) ≡ true =
      ground (arith, length-append pre (m ∷ post)) in
    rw h (ap (λ t. some (p ∷ t)) (set-middle pre post m v l (omega arith)))

get_elem?-middle :
    (pre post : List ℤ) (m : ℤ) (l : ℕ) → l ≡ length pre → get_elem? (pre ++ (m ∷ post)) l ≡ some m
get_elem?-middle [] post m l e = rw e
get_elem?-middle (p ∷ pre) post m zero e = absurd (omega arith)
get_elem?-middle (p ∷ pre) post m (suc l) e = get_elem?-middle pre post m l (omega arith)

-- The part moves into the prefix.
shift : (pre rest : List ℤ) (v : ℤ) → (pre ++ v ∷ []) ++ rest ≡ pre ++ (v ∷ rest)
shift pre rest v = append_assoc pre (v ∷ []) rest

length-snoc : (pre : List ℤ) (v : ℤ) (l : ℕ) → l ≡ length pre → l + 1 ≡ length (pre ++ v ∷ [])
length-snoc pre v l e = omega (arith, length-append pre (v ∷ []))

copy-middle :
    (pre xs post : List ℤ) (l : ℕ)
    → l ≡ length pre
    → copy (pre ++ (xs ++ post)) l (length xs) ≡ some xs
unfolding copy
copy-middle pre [] post l e = refl
copy-middle pre (x ∷ xs) post l e =
    let later =
      rw (shift pre (xs ++ post) x) at
        (copy-middle (pre ++ x ∷ []) xs post (l + 1) (length-snoc pre x l e)) in
    rw (get_elem?-middle pre (xs ++ post) x l e, later)

drain-middle :
    (pre ys mid post : List ℤ) (l : ℕ)
    → l ≡ length pre
    → length mid ≡ length ys
    → drain (pre ++ (mid ++ post)) l ys ≡ some (pre ++ (ys ++ post))
unfolding drain
drain-middle pre [] [] post l e k = refl
drain-middle pre [] (m ∷ mid) post l e k = absurd (omega arith)
drain-middle pre (y ∷ ys) [] post l e k = absurd (omega arith)
drain-middle pre (y ∷ ys) (m ∷ mid) post l e k =
    rw (write_at-middle pre (mid ++ post) m y l e, ← shift pre (mid ++ post) y)
      (drain-middle (pre ++ y ∷ []) ys mid post (l + 1) (length-snoc pre y l e) (omega arith)
        ∙ ap some (shift pre (ys ++ post) y))

merge_loop-middle :
    (pre xs ys mid post : List ℤ) (l : ℕ)
    → l ≡ length pre
    → length mid ≡ length xs + length ys
    → merge_loop (pre ++ (mid ++ post)) l xs ys ≡ some (pre ++ (merged xs ys ++ post))
unfolding merge_loop merged
merge_loop-middle pre [] ys mid post l e k = drain-middle pre ys mid post l e (omega arith)
merge_loop-middle pre (x ∷ xs) [] mid post l e k =
    drain-middle pre (x ∷ xs) mid post l e (omega arith)
merge_loop-middle pre (x ∷ xs) (y ∷ ys) [] post l e k = absurd (omega arith)
merge_loop-middle pre (x ∷ xs) (y ∷ ys) (m ∷ mid) post l e k = elim (Bool-cases (leb_ℤ x y)) [
  | inl le ↦
      rw
        (
          merge_loop-left x y xs ys (pre ++ (m ∷ (mid ++ post))) l le,
          merged-left x y xs ys le,
          write_at-middle pre (mid ++ post) m x l e,
          ← shift pre (mid ++ post) x,
        )
        (merge_loop-middle (pre ++ x ∷ []) xs (y ∷ ys) mid post (l + 1) (length-snoc pre x l e)
            (omega arith)
          ∙ ap some (shift pre (merged xs (y ∷ ys) ++ post) x))
  | inr gt ↦
      rw
        (
          merge_loop-right x y xs ys (pre ++ (m ∷ (mid ++ post))) l gt,
          merged-right x y xs ys gt,
          write_at-middle pre (mid ++ post) m y l e,
          ← shift pre (mid ++ post) y,
        )
        (merge_loop-middle (pre ++ y ∷ []) (x ∷ xs) ys mid post (l + 1) (length-snoc pre y l e)
            (omega arith)
          ∙ ap some (shift pre (merged (x ∷ xs) ys ++ post) y))
]

AllGe-trans : (a b : ℤ) (xs : List ℤ) → a ≤ℤ b → AllGe b xs → AllGe a xs
AllGe-trans a b [] h s = tt
AllGe-trans a b (x ∷ xs) h s = (≤ℤ_trans a b x h s.0, AllGe-trans a b xs h s.1)

AllGe-merged : (a : ℤ) (xs ys : List ℤ) → AllGe a xs → AllGe a ys → AllGe a (merged xs ys)
unfolding merged
AllGe-merged a [] ys p q = q
AllGe-merged a (x ∷ xs) [] p q = p
AllGe-merged a (x ∷ xs) (y ∷ ys) p q = elim (Bool-cases (leb_ℤ x y)) [
  | inl le ↦ rw (merged-left x y xs ys le) (p.0, AllGe-merged a xs (y ∷ ys) p.1 q)
  | inr gt ↦ rw (merged-right x y xs ys gt) (q.0, AllGe-merged a (x ∷ xs) ys p q.1)
]

pub merged-IsSorted : (xs ys : List ℤ) → IsSorted xs → IsSorted ys → IsSorted (merged xs ys)
unfolding merged
merged-IsSorted [] ys p q = q
merged-IsSorted (x ∷ xs) [] p q = p
merged-IsSorted (x ∷ xs) (y ∷ ys) p q = elim (Bool-cases (leb_ℤ x y)) [
  | inl le ↦
      let h : x ≤ℤ y = ground arith in
      rw (merged-left x y xs ys le) (
        AllGe-merged x xs (y ∷ ys) p.0 (h, AllGe-trans x y ys h q.0),
        merged-IsSorted xs (y ∷ ys) p.1 q,
      )
  | inr gt ↦
      let h : y ≤ℤ x = ground arith in
      rw (merged-right x y xs ys gt) (
        AllGe-merged y (x ∷ xs) ys (h, AllGe-trans y x xs h p.0) q.0,
        merged-IsSorted (x ∷ xs) ys p q.1,
      )
]

pub merged-perm : (xs ys : List ℤ) → Perm (merged xs ys) (xs ++ ys)
unfolding merged
merged-perm [] ys = Perm.refl ys
merged-perm (x ∷ xs) [] = rw append-nil (Perm.refl (x ∷ xs))
merged-perm (x ∷ xs) (y ∷ ys) = elim (Bool-cases (leb_ℤ x y)) [
  | inl le ↦ rw (merged-left x y xs ys le) (Perm.cons x (merged-perm xs (y ∷ ys)))
  | inr gt ↦
      rw (merged-right x y xs ys gt)
        (Perm.trans (Perm.cons y (merged-perm (x ∷ xs) ys)) (Perm.symm (perm_middle (x ∷ xs) ys)))
]

pub length-merged : (xs ys : List ℤ) → length (merged xs ys) ≡ length xs + length ys
unfolding merged
length-merged [] ys = omega arith
length-merged (x ∷ xs) [] = omega arith
length-merged (x ∷ xs) (y ∷ ys) = elim (Bool-cases (leb_ℤ x y)) [
  | inl le ↦ rw (merged-left x y xs ys le) (omega (arith, length-merged xs (y ∷ ys)))
  | inr gt ↦ rw (merged-right x y xs ys gt) (omega (arith, length-merged (x ∷ xs) ys))
]

pub merge-middle :
    (pre xs ys post : List ℤ) (l m r : ℕ)
    → l ≡ length pre
    → m + 1 ≡ l + length xs
    → r ≡ m + length ys
    → merge (pre ++ (xs ++ (ys ++ post))) l m r ≡ some (pre ++ (merged xs ys ++ post))
unfolding merge
merge-middle pre xs ys post l m r e1 e2 e3 =
    let left : m + 1 - l ≡ length xs = omega arith in
    let right : r - m ≡ length ys = omega arith in
    let second =
      rw (append_assoc pre xs (ys ++ post)) at
        (copy-middle (pre ++ xs) ys post (m + 1) (omega (arith, length-append pre xs))) in
    rw (left, right, copy-middle pre xs (ys ++ post) l e1, second, ← append_assoc xs ys post)
      (merge_loop-middle pre xs ys (xs ++ ys) post l e1 (length-append xs ys))
