-- ===== src/Gateway/Heap/Returns.antt =====
-- A run that faults nowhere, does not block, has enough fuel, and meets a postcondition.
use linux_programing.Gateway.Heap.{Heap, Run, ok, Action, resume}

pub data Returns {A : Type 0} (P : A → Heap → Type 0) : Run A → Type 0 where
  returns : {result : A} {after : Heap} → P result after → Returns P (ok result after)

module _ {A : Type 0} {P : A → Heap → Type 0} where
  pub mono :
      {Q : A → Heap → Type 0} {run : Run A}
      → Returns P run
      → ((a : A) (h : Heap) → P a h → Q a h)
      → Returns Q run
  mono (returns p) weaken = returns (weaken _ _ p)

  pub bind :
      {B : Type 0} {Q : B → Heap → Type 0} {run : Run A} {k : A → Action B}
      → Returns P run
      → ((a : A) (h : Heap) → P a h → Returns Q (k a h))
      → Returns Q (resume run k)
  bind (returns p) next = next _ _ p
