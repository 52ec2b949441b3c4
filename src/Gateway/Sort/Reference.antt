-- ===== src/Gateway/Sort/Reference.antt =====
-- os_gen.c: `sort` beside insertion sort.
use mathlib.Core.List.{Permᴰ, List-discrete}
use mathlib.Core.HLevel.{hedberg}
use mathlib.Core.Logic.{∥∥₁_elim}
use linux_programing.Common.{
  ℕ, ◌+◌, ◌≤◌, ◌≡◌, refl, ◌∙◌, some, List, [], ◌∷◌, ◌++◌, if◌then◌else◌, arith, length, ℕ_discrete,
}
use linux_programing.Common.Int.{ℤ, leb_ℤ}
use linux_programing.Gateway.Order.{AllGe, IsSorted}
use linux_programing.Gateway.Sort.{sort}
use linux_programing.Gateway.Sort.Correct.{sort-Ordered}

-- A number before the first that is not below it.
pub insert : ℤ → List ℤ → List ℤ
insert x [] = x ∷ []
insert x (y ∷ ys) = let rest = insert x ys in if leb_ℤ x y then x ∷ y ∷ ys else y ∷ rest

pub insertion_sort : List ℤ → List ℤ
unfolding insert
insertion_sort [] = []
insertion_sort (x ∷ xs) = insert x (insertion_sort xs)

insert_comm : (x y : ℤ) (zs : List ℤ) → insert x (insert y zs) ≡ insert y (insert x zs)
unfolding insert
insert_comm x y [] = ground arith
insert_comm x y (z ∷ zs) = let ih = insert_comm x y zs in ground arith

insert-first : (x : ℤ) (ys : List ℤ) → AllGe x ys → insert x ys ≡ x ∷ ys
unfolding insert
insert-first x [] h = refl
insert-first x (y ∷ ys) (le, h) = ground (arith, le)

insertion_sort-IsSorted : (xs : List ℤ) → IsSorted xs → insertion_sort xs ≡ xs
unfolding insertion_sort
insertion_sort-IsSorted [] s = refl
insertion_sort-IsSorted (x ∷ xs) (ge, s) = rw (insertion_sort-IsSorted xs s) (insert-first x xs ge)

ℤ-discrete : Discrete ℤ
ℤ-discrete = hlevel (ℕ_discrete)

insertion_sort-Permᴰ : {xs ys : List ℤ} → Permᴰ xs ys → insertion_sort xs ≡ insertion_sort ys
unfolding insertion_sort
insertion_sort-Permᴰ Permᴰ.nil = refl
insertion_sort-Permᴰ (Permᴰ.cons e p) = rw (e, insertion_sort-Permᴰ p) refl
insertion_sort-Permᴰ (Permᴰ.swap {a'} {b'} {l} e f) =
    rw (e, f) (insert_comm b' a' (insertion_sort l))
insertion_sort-Permᴰ (Permᴰ.trans p q) = insertion_sort-Permᴰ p ∙ insertion_sort-Permᴰ q

-- From `l` to `r` of an array that reaches that far, `sort` puts in place of that part what insertion
-- sort makes of it, and leaves what stands before and behind it.
pub sort-insertion_sort :
    (pre seg post : List ℤ) (l r : ℕ)
    → l ≡ length pre
    → l ≤ r
    → r + 1 ≡ l + length seg
    → sort (pre ++ (seg ++ post)) l r ≡ some (pre ++ (insertion_sort seg ++ post))
sort-insertion_sort pre seg post l r e1 le e2 =
    let (out, runs, sorted, perm) = sort-Ordered pre seg post l r e1 le e2 in
    let same : insertion_sort out ≡ insertion_sort seg =
      ∥∥₁_elim perm (hedberg (List-discrete ℤ-discrete) _ _) insertion_sort-Permᴰ in
    rw⁻¹ same (rw (insertion_sort-IsSorted out sorted) runs)
