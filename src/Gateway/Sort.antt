-- ===== src/Gateway/Sort.antt =====
-- `merge` and `sort` of final-assignment/shared/os_gen.c: merge sort of a part of an array, in
-- place. A read or a write outside the array is `none`, and so is an exhausted recursion.
pub mod Merge
pub mod Correct
pub mod Reference
use linux_programing.Common.{
  ℕ, zero, suc, ◌+◌, ◌-◌, ◌/◌, Bool, true, false, Option, none, some, List, [], ◌∷◌, ltb, get_elem?,
  set, length, if◌then◌else◌,
}
use linux_programing.Common.Int.{ℤ, leb_ℤ}

infixl 5 ◌>>=◌
abbrev ◌>>=◌ : {A B : Type 0} → Option A → (A → Option B) → Option B
none >>= f = none
some a >>= f = f a

write_at : List ℤ → ℕ → ℤ → Option (List ℤ)
write_at a i v = if ltb i (length a) then some (set a i v) else none

-- `for (i = 0; i < len; i++) L[i] = a[l + i];`
copy : List ℤ → ℕ → ℕ → Option (List ℤ)
copy a l zero = some []
copy a l (suc n) = do v ← get_elem? a l; rest ← copy a (l + 1) n; some (v ∷ rest)

-- `while (j < len2) a[l++] = R[j++];` over what is left of the copy.
drain : List ℤ → ℕ → List ℤ → Option (List ℤ)
drain a l [] = some a
drain a l (y ∷ ys) = do a' ← write_at a l y; drain a' (l + 1) ys

-- The loop of `merge` over what is left of both copies, with the two loops behind it.
merge_loop : List ℤ → ℕ → List ℤ → List ℤ → Option (List ℤ)
merge_loop a l [] ys = drain a l ys
merge_loop a l (x ∷ xs) [] = drain a l (x ∷ xs)
merge_loop a l (x ∷ xs) (y ∷ ys) = elim (leb_ℤ x y) [
  | true ↦ write_at a l x >>= λ a'. merge_loop a' (l + 1) xs (y ∷ ys)
  | false ↦ write_at a l y >>= λ a'. merge_loop a' (l + 1) (x ∷ xs) ys
]

pub merge : List ℤ → (l m r : ℕ) → Option (List ℤ)
unfolding copy drain merge_loop write_at
merge a l m r = do
  left ← copy a l (m + 1 - l)
  right ← copy a (m + 1) (r - m)
  merge_loop a l left right

-- The recursion on `r - l`, on fuel.
sort_fuel : ℕ → List ℤ → (l r : ℕ) → Option (List ℤ)
sort_fuel zero a l r = none
sort_fuel (suc fuel) a l r =
    let mid = l + (r - l) / 2 in
    let sorted = (do
      first ← sort_fuel fuel a l mid
      second ← sort_fuel fuel first (mid + 1) r
      merge second l mid r) in
    if ltb l r then sorted else some a

pub sort : List ℤ → (l r : ℕ) → Option (List ℤ)
unfolding sort_fuel merge
sort a l r = sort_fuel (r - l + 1) a l r
