-- ===== src/Gateway/Search/Correct.antt =====
-- os_gen.c: `search` in an ascending array.
use linux_programing.Common.{
  ℕ, zero, suc, ◌+◌, ◌^◌, ◌-◌, ◌/◌, ◌≤◌, ◌<◌, ◌≡◌, ◌≢◌, inl, inr, true, false, some, List, ltb,
  get_elem?, arith, length, ap, ◌∙◌, if◌then◌else◌, Bool-cases, dec_lt, refl, ◌∷◌, [],
}
use linux_programing.Common.Int.{ℤ, ◌≤ℤ◌, eqb_ℤ, ltb_ℤ, eqb_ℤ→eq}
use linux_programing.Gateway.Order.{IsSorted, IsSorted-get_elem?}
use linux_programing.Gateway.Search.{
  Outcome, found, missing, out_of_bounds, overflow, out_of_fuel, int_max, Verdict, here, right_of,
  left_of, outside, compare_at, search_loop, search,
}

-- 1 means that `x` stands at some index, 0 that it stands at none; no other outcome is right.
abbrev pub Answers : List ℤ → ℤ → Outcome → Type 0
Answers arr x found = (i : ℕ) × (get_elem? arr i ≡ some x)
Answers arr x missing = (i : ℕ) → get_elem? arr i ≢ some x
Answers arr x out_of_bounds = ⊥
Answers arr x overflow = ⊥
Answers arr x out_of_fuel = ⊥

get_elem?-some : (arr : List ℤ) (i : ℕ) → i < length arr → (v : ℤ) × (get_elem? arr i ≡ some v)
get_elem?-some [] i h = absurd (omega arith)
get_elem?-some (x ∷ arr) zero h = (x, refl)
get_elem?-some (x ∷ arr) (suc i) h = get_elem?-some arr i (omega arith)

-- A value that differs strictly from another stands on the same side in the array.
module _ (arr : List ℤ) (s : IsSorted arr) where
  index_lt_of_lt :
      (m i : ℕ) (v x : ℤ)
      → get_elem? arr m ≡ some v
      → get_elem? arr i ≡ some x
      → ltb_ℤ v x ≡ true
      → m < i
  index_lt_of_lt m i v x p q lt = elim (dec_lt m i) [
    | yes before ↦ before
    | no after ↦ elim (dec_lt i m) [
      | yes strictly ↦
          let k : x ≤ℤ v = IsSorted-get_elem? arr i m s strictly q p in absurd (ground arith)
      | no neither ↦ let same : i ≡ m = omega arith in absurd (ground arith)
    ]
  ]

-- What a verdict says of the array.
abbrev Says : List ℤ → ℤ → ℕ → Verdict → Type 0
Says arr x m here = get_elem? arr m ≡ some x
Says arr x m right_of = (i : ℕ) → get_elem? arr i ≡ some x → m < i
Says arr x m left_of = (i : ℕ) → get_elem? arr i ≡ some x → i < m
Says arr x m outside = ⊥

compare_at-some :
    (arr : List ℤ) (x : ℤ) (m : ℕ) (v : ℤ)
    → get_elem? arr m ≡ some v
    → compare_at arr x m ≡ (if eqb_ℤ v x then here else if ltb_ℤ v x then right_of else left_of)
unfolding compare_at
compare_at-some arr x m v e = rw (e, compare_at)

compare_at-Says :
    (arr : List ℤ) (x : ℤ) (m : ℕ)
    → IsSorted arr
    → m < length arr
    → Says arr x m (compare_at arr x m)
compare_at-Says arr x m s h =
    let (v, e) = get_elem?-some arr m h in
    rw (compare_at-some arr x m v e) (elim (Bool-cases (eqb_ℤ v x)) [
      | inl same ↦ rw same (e ∙ ap some (eqb_ℤ→eq v x same))
      | inr differ ↦ rw differ (elim (Bool-cases (ltb_ℤ v x)) [
        | inl below ↦ rw below (λ i at. index_lt_of_lt arr s m i v x e at below)
        | inr above ↦ rw above (λ i at. index_lt_of_lt arr s i m x v at e (ground arith))
      ])
    ])

search_loop-Answers :
    (fuel : ℕ) (arr : List ℤ) (x : ℤ) (left stop : ℕ)
    → IsSorted arr
    → left ≤ stop
    → stop ≤ length arr
    → stop ≤ 2 ^ 30
    → stop < left + fuel
    → ((i : ℕ) → get_elem? arr i ≡ some x → (left ≤ i) × (i < stop))
    → Answers arr x (search_loop fuel arr x left stop)
unfolding search_loop
search_loop-Answers zero arr x left stop s range bound small enough window = absurd (omega arith)
search_loop-Answers (suc fuel) arr x left stop s range bound small enough window =
    elim (Bool-cases (ltb left stop)) [
      | inr done ↦ rw done (λ i at. let (a, b) = window i at in absurd (ground arith))
      | inl more ↦
          rw (more, no_overflow more)
            (go (compare_at arr x m) (compare_at-Says arr x m s (ground arith))
              (λ after.
                search_loop-Answers fuel arr x (m + 1) stop s (ground arith) bound small
                  (ground arith) (λ i at. (omega (arith, after i at), (window i at).1)))
              (λ before.
                search_loop-Answers fuel arr x left m s (ground arith) (ground arith) (ground arith)
                  (ground arith) (λ i at. ((window i at).0, before i at))))
    ]
  where
    m : ℕ
    m = (left + stop - 1) / 2

    no_overflow : ltb left stop ≡ true → ltb int_max (left + stop - 1) ≡ false
    no_overflow more = ground (arith, more, small)

    go :
        (c : Verdict)
        → Says arr x m c
        → (((i : ℕ) → get_elem? arr i ≡ some x → m < i)
            → Answers arr x (search_loop fuel arr x (m + 1) stop))
        → (((i : ℕ) → get_elem? arr i ≡ some x → i < m)
            → Answers arr x (search_loop fuel arr x left m))
        → Answers arr x (elim c [
          | here ↦ found
          | right_of ↦ search_loop fuel arr x (m + 1) stop
          | left_of ↦ search_loop fuel arr x left m
          | outside ↦ out_of_bounds
        ])
    go here at right left' = (m, at)
    go right_of after right left' = right after
    go left_of before right left' = left' before
    go outside h right left' = h

get_elem?-lt : (arr : List ℤ) (i : ℕ) (v : ℤ) → get_elem? arr i ≡ some v → i < length arr
get_elem?-lt [] i v e = absurd (ground arith)
get_elem?-lt (x ∷ arr) zero v e = omega arith
get_elem?-lt (x ∷ arr) (suc i) v e = omega (arith, get_elem?-lt arr i v e)

-- Over the whole of an ascending array of at most 2^30 numbers, `search` ends, computes no index above the
-- largest `int`, reads inside the array, answers 1 only when
-- the value stands in it and 0 only when it does not.
pub search-Answers :
    (arr : List ℤ) (x : ℤ) (right : ℕ)
    → IsSorted arr
    → length arr ≡ right + 1
    → right < 2 ^ 30
    → Answers arr x (search arr x 0 right)
unfolding search
search-Answers arr x right s e small =
    search_loop-Answers (right + 2) arr x 0 (right + 1) s (omega arith) (omega arith) (omega arith)
      (omega arith) (λ i at. (omega arith, omega (arith, get_elem?-lt arr i x at)))
