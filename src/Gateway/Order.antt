-- ===== src/Gateway/Order.antt =====
-- Ascending lists of `int`, by recursion and by index.
use linux_programing.Common.{ℕ, zero, suc, ◌<◌, ◌≡◌, some, List, [], ◌∷◌, get_elem?, arith}
use linux_programing.Common.Int.{ℤ, ◌≤ℤ◌}

abbrev pub AllGe : ℤ → List ℤ → Type 0
AllGe a [] = Unit
AllGe a (x ∷ xs) = (a ≤ℤ x) × AllGe a xs

abbrev pub IsSorted : List ℤ → Type 0
IsSorted [] = Unit
IsSorted (x ∷ xs) = AllGe x xs × IsSorted xs

pub AllGe-get_elem? :
    (a b : ℤ) (xs : List ℤ) (i : ℕ) → AllGe a xs → get_elem? xs i ≡ some b → a ≤ℤ b
AllGe-get_elem? a b [] i h e = absurd (ground arith)
AllGe-get_elem? a b (x ∷ xs) zero h e = ground arith
AllGe-get_elem? a b (x ∷ xs) (suc i) h e = AllGe-get_elem? a b xs i h.1 e

pub IsSorted-get_elem? :
    {a b : ℤ} (xs : List ℤ) (i j : ℕ)
    → IsSorted xs
    → i < j
    → get_elem? xs i ≡ some a
    → get_elem? xs j ≡ some b
    → a ≤ℤ b
IsSorted-get_elem? [] i j s lt p q = absurd (ground arith)
IsSorted-get_elem? (x ∷ xs) i zero s lt p q = absurd (omega arith)
IsSorted-get_elem? {b} (x ∷ xs) zero (suc j) s lt p q =
    let h : x ≤ℤ b = AllGe-get_elem? x b xs j s.0 q in ground arith
IsSorted-get_elem? (x ∷ xs) (suc i) (suc j) s lt p q =
    IsSorted-get_elem? xs i j s.1 (omega arith) p q
