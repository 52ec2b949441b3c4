-- ===== src/Gateway/Search/Sensors.antt =====
-- os_msg.c: the call of `search` over the five sensor numbers.
use linux_programing.Common.{
  ◌≡◌, Bool, true, false, List, [], ◌∷◌, arith, if◌then◌else◌, Bool-cases, inl, inr, refl, ◌∙◌, sym,
  ap,
}
use linux_programing.Common.Int.{ℤ, eqb_ℤ, ltb_ℤ, ◌≤ℤ◌}
use linux_programing.Gateway.Order.{IsSorted}
use linux_programing.Gateway.Search.{found, missing, out_of_bounds, search, search_loop, compare_at}

abbrev pub contains : List ℤ → ℤ → Bool
contains [] x = false
contains (y ∷ ys) x = if eqb_ℤ y x then true else contains ys x

either :
    (p q : Bool)
    → (if p then found else if q then found else missing)
      ≡ (if if p then true else if q then true else false then found else missing)
either true q = refl
either false true = refl
either false false = refl

any_third :
    (p q : Bool) → (if if p then true else if q then true else true then found else missing) ≡ found
any_third true q = refl
any_third false true = refl
any_third false false = refl

module _ (a b c d e x : ℤ) where
  -- The turns behind a first comparison that goes to the right, and to the left.
  upper_half :
      d ≤ℤ e
      → search_loop 6 (a ∷ b ∷ c ∷ d ∷ e ∷ []) x 3 6 ≡ (
          if ltb_ℤ e x
          then out_of_bounds
          else if eqb_ℤ d x
          then found
          else if eqb_ℤ e x
          then found
          else missing)
  unfolding search_loop compare_at
  upper_half h = ground arith

  lower_half :
      a ≤ℤ b
      → search_loop 6 (a ∷ b ∷ c ∷ d ∷ e ∷ []) x 0 2
        ≡ (if eqb_ℤ a x then found else if eqb_ℤ b x then found else missing)
  unfolding search_loop compare_at
  lower_half h = ground arith

  first_turn : search (a ∷ b ∷ c ∷ d ∷ e ∷ []) x 0 5 ≡ (
      if eqb_ℤ c x
      then found
      else if ltb_ℤ c x
      then search_loop 6 (a ∷ b ∷ c ∷ d ∷ e ∷ []) x 3 6
      else search_loop 6 (a ∷ b ∷ c ∷ d ∷ e ∷ []) x 0 2)
  unfolding search search_loop compare_at
  first_turn = elim (Bool-cases (eqb_ℤ c x)) [
    | inl same ↦ rw same refl
    | inr other ↦ elim (Bool-cases (ltb_ℤ c x)) [
      | inl right ↦ rw (other, right) refl
      | inr left ↦ rw (other, left) refl
    ]
  ]

-- On five ascending numbers, `search(senIDs, x, 0, 5)` of `msg_parse` reads outside the array
-- exactly when `x` is above all of them; else it finds `x` exactly when it is one of them.
pub search_five :
    (a b c d e x : ℤ)
    → IsSorted (a ∷ b ∷ c ∷ d ∷ e ∷ [])
    → search (a ∷ b ∷ c ∷ d ∷ e ∷ []) x 0 5 ≡ (
        if ltb_ℤ e x
        then out_of_bounds
        else if contains (a ∷ b ∷ c ∷ d ∷ e ∷ []) x
        then found
        else missing)
search_five a b c d e x s =
    let ab : a ≤ℤ b = s.0.0 in
    let bc : b ≤ℤ c = s.1.0.0 in
    let cd : c ≤ℤ d = s.1.1.0.0 in
    let de : d ≤ℤ e = s.1.1.1.0.0 in
    first_turn a b c d e x ∙ elim (Bool-cases (eqb_ℤ c x)) [
      | inl same ↦
          let not_above : ltb_ℤ e x ≡ false = ground (arith, cd, de, same) in
          rw (same, not_above) (sym (any_third (eqb_ℤ a x) (eqb_ℤ b x)))
      | inr other ↦ elim (Bool-cases (ltb_ℤ c x)) [
        | inl right ↦
            let not_b : eqb_ℤ b x ≡ false = ground (arith, bc, right) in
            let not_a : eqb_ℤ a x ≡ false = ground (arith, ab, bc, right) in
            rw (other, right, upper_half a b c d e x de, not_a, not_b)
              (ap (λ o. if ltb_ℤ e x then out_of_bounds else o) (either (eqb_ℤ d x) (eqb_ℤ e x)))
        | inr left ↦
            let not_d : eqb_ℤ d x ≡ false = ground (arith, cd, other, left) in
            let not_e : eqb_ℤ e x ≡ false = ground (arith, cd, de, other, left) in
            let not_above : ltb_ℤ e x ≡ false = ground (arith, cd, de, other, left) in
            rw (other, left, lower_half a b c d e x ab, not_d, not_e, not_above)
              (either (eqb_ℤ a x) (eqb_ℤ b x))
      ]
    ]
