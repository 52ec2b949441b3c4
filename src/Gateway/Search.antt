-- ===== src/Gateway/Search.antt =====
-- `search` of final-assignment/shared/os_gen.c: binary search in a sorted array of `int`.
pub mod Correct
pub mod Sensors
use linux_programing.Common.{
  ℕ, zero, suc, ◌+◌, ◌-◌, ◌/◌, Bool, Option, none, some, List, ltb, get_elem?, if◌then◌else◌,
}
use linux_programing.Common.Int.{ℤ, ltb_ℤ, eqb_ℤ}

-- What the call does: it returns 1 or 0, reads outside the array, or its `left + right` leaves `int`.
pub data Outcome : Type 0 where
  found missing out_of_bounds overflow out_of_fuel : Outcome

-- One comparison of `arr[m]` with `x`.
pub data Verdict : Type 0 where
  here right_of left_of outside : Verdict

compare_at : List ℤ → ℤ → ℕ → Verdict
compare_at arr x m = elim (get_elem? arr m) [
  | none ↦ outside
  | some v ↦ if eqb_ℤ v x then here else if ltb_ℤ v x then right_of else left_of
]

-- `while (left <= right)`. `right` can fall to -1, so the loop keeps `stop`, which is `right + 1`:
-- `right = m - 1` is `stop = m`.
abbrev pub int_max : ℕ
int_max = 2_147_483_647

search_loop : ℕ → List ℤ → ℤ → (left stop : ℕ) → Outcome
search_loop zero arr x left stop = out_of_fuel
search_loop (suc fuel) arr x left stop =
    let m = (left + stop - 1) / 2 in
    if ltb left stop
    then if ltb int_max (left + stop - 1) then overflow else elim (compare_at arr x m) [
      | here ↦ found
      | right_of ↦ search_loop fuel arr x (m + 1) stop
      | left_of ↦ search_loop fuel arr x left m
      | outside ↦ out_of_bounds
    ]
    else missing

-- Each round shortens `stop - left`, which bounds the fuel.
pub search : List ℤ → ℤ → (left right : ℕ) → Outcome
unfolding search_loop compare_at
search arr x left right = search_loop (right + 2) arr x left (right + 1)
