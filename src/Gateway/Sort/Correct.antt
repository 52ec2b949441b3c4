-- ===== src/Gateway/Sort/Correct.antt =====
-- os_gen.c: what `sort` makes of a part of an array.
use mathlib.Core.List.{append_assoc, Perm}
use mathlib.Core.List.Perm
use linux_programing.Common.{
  ℕ, zero, suc, ◌+◌, ◌-◌, ◌/◌, ◌≤◌, ◌<◌, ◌≡◌, refl, true, false, some, List, [], ◌∷◌, ◌++◌, ltb,
  length, length-append, take, drop, take-append-drop, length-take, length-drop, arith, Bool-cases,
  inl, inr,
}
use linux_programing.Common.Int.{ℤ}
use linux_programing.Gateway.Order.{IsSorted}
use linux_programing.Gateway.Sort.{sort_fuel, sort}
use linux_programing.Gateway.Sort.Merge.{
  merged, merged-IsSorted, merged-perm, length-merged, merge-middle,
}

-- What the recursion on a part leaves: the part in order, and nothing else touched.
record Ordered (fuel : ℕ) (pre seg post : List ℤ) (l r : ℕ) : Type 0 where
  out : List ℤ
  runs : sort_fuel fuel (pre ++ (seg ++ post)) l r ≡ some (pre ++ (out ++ post))
  sorted : IsSorted out
  perm : Perm out seg
  size : length out ≡ length seg

sort_fuel-single :
    (fuel : ℕ) (pre seg post : List ℤ) (l r : ℕ)
    → length seg ≡ 1
    → ltb l r ≡ false
    → Ordered (suc fuel) pre seg post l r
unfolding sort_fuel
sort_fuel-single fuel pre [] post l r e h = absurd (omega arith)
sort_fuel-single fuel pre (x ∷ []) post l r e h = record {
  out = x ∷ [];
  runs = rw h;
  sorted = (tt, tt);
  perm = Perm.refl (x ∷ []);
  size = refl;
}
sort_fuel-single fuel pre (x ∷ y ∷ seg) post l r e h = absurd (omega arith)

combine :
    (fuel : ℕ) (pre s1 s2 post : List ℤ) (l r : ℕ)
    → ltb l r ≡ true
    → l ≡ length pre
    → length s1 ≡ (r - l) / 2 + 1
    → r ≡ l + (r - l) / 2 + length s2
    → (first : Ordered fuel pre s1 (s2 ++ post) l (l + (r - l) / 2))
    → Ordered fuel (pre ++ first.out) s2 post (l + (r - l) / 2 + 1) r
    → Ordered (suc fuel) pre (s1 ++ s2) post l r
unfolding sort_fuel
combine fuel pre s1 s2 post l r more e1 e2 e3 first second = record {
  out = merged first.out second.out;
  runs =
      let step2 =
        rw
          (append_assoc pre first.out (s2 ++ post), append_assoc pre first.out (second.out ++ post))
          at second.runs in
      rw (more, append_assoc s1 s2 post, first.runs, step2)
        (merge-middle pre first.out second.out post l (l + (r - l) / 2) r e1
          (omega (arith, first.size)) (omega (arith, second.size)));
  sorted = merged-IsSorted first.out second.out first.sorted second.sorted;
  perm = Perm.trans (merged-perm first.out second.out) (Perm.append first.perm second.perm);
  size =
      omega
        (arith, length-merged first.out second.out, first.size, second.size, length-append s1 s2);
}

sort_fuel-Ordered :
    (fuel : ℕ) (pre seg post : List ℤ) (l r : ℕ)
    → l ≡ length pre
    → l ≤ r
    → r + 1 ≡ l + length seg
    → length seg ≤ fuel
    → Ordered fuel pre seg post l r
unfolding sort_fuel
sort_fuel-Ordered zero pre seg post l r e1 le e2 enough = absurd (omega arith)
sort_fuel-Ordered (suc fuel) pre seg post l r e1 le e2 enough = elim (Bool-cases (ltb l r)) [
  | inr single ↦ sort_fuel-single fuel pre seg post l r (ground arith) single
  | inl more ↦
      let k : ℕ = (r - l) / 2 + 1 in
      let mid : ℕ = l + (r - l) / 2 in
      let lt : l < r = ground arith in
      let taken : length (take k seg) ≡ k = omega (arith, length-take k seg) in
      let first =
        sort_fuel-Ordered fuel pre (take k seg) (drop k seg ++ post) l mid e1 (omega arith)
          (omega arith) (omega arith) in
      let second =
        sort_fuel-Ordered fuel (pre ++ first.out) (drop k seg) post (mid + 1) r
          (omega (arith, length-append pre first.out, first.size)) (omega arith)
          (omega (arith, length-drop k seg)) (omega (arith, length-drop k seg)) in
      rw (take-append-drop k seg) at (
        combine fuel pre (take k seg) (drop k seg) post l r more e1 taken
          (omega (arith, length-drop k seg)) first second)
]

-- From `l` to `r` of an array that reaches that far, `sort` ends without an access out of bounds,
-- puts an ascending permutation in place of that part, and leaves what stands before and behind
-- it.
pub sort-Ordered :
    (pre seg post : List ℤ) (l r : ℕ)
    → l ≡ length pre
    → l ≤ r
    → r + 1 ≡ l + length seg
    → (out : List ℤ) × (sort (pre ++ (seg ++ post)) l r ≡ some (pre ++ (out ++ post)))
      × IsSorted out
      × Perm out seg
unfolding sort
sort-Ordered pre seg post l r e1 le e2 =
    let done = sort_fuel-Ordered (r - l + 1) pre seg post l r e1 le e2 (omega arith) in
    (done.out, done.runs, done.sorted, done.perm)
