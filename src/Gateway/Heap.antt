-- ===== src/Gateway/Heap.antt =====
-- The memory of final-assignment/headers/os_list.h: list nodes at addresses, and actions over
-- them. A action faults at a NULL or freed address, and blocks where the thread would sleep.
pub mod Points
pub mod Returns
use linux_programing.Common.{ℕ, Option, none, some, ◌==◌, if◌then◌else◌}

abbrev pub Ptr : Type 0
Ptr = ℕ

-- `os_list_node`. `payload` is the address kept in `void *data`.
pub record Node : Type 0 where
  pub next : Ptr
  pub prev : Ptr
  pub payload : Ptr

abbrev pub null : Ptr
null = 0

abbrev pub node : Ptr → Ptr → Ptr → Node
node q b d = record { next = q; prev = b; payload = d }

abbrev pub Heap : Type 0
Heap = Ptr → Option Node

pub data Run (A : Type 0) : Type 0 where
  fault blocked out_of_fuel : Run A
  ok : A → Heap → Run A

abbrev pub Action : Type 0 → Type 0
Action A = Heap → Run A

abbrev pub pure : {A : Type 0} → A → Action A
pure = ok

module _ {A B : Type 0} where
  abbrev pub resume : Run A → (A → Action B) → Run B
  resume fault next = fault
  resume blocked next = blocked
  resume out_of_fuel next = out_of_fuel
  resume (ok a h) next = next a h

  infixl 5 ◌>>=◌ ◌>>◌
  abbrev pub ◌>>=◌ : Action A → (A → Action B) → Action B
  m >>= k = λ h. resume (m h) k

  abbrev pub ◌>>◌ : Action A → Action B → Action B
  m >> n = m >>= λ _. n

unfoldable pub write : (h : Heap) → (at : Ptr) → Option Node → Heap
write h at cell a = if a == at then cell else h a

abbrev pub fill : Ptr → Option Node → Action (Unit {0})
fill p c h = ok tt (write h p c)

unfoldable pub load : Ptr → Action Node
load p h = if p == null then fault else elim (h p) [ none ↦ fault | some n ↦ ok n h ]

unfoldable pub set_next : Ptr → Ptr → Action (Unit {0})
set_next p q = do n ← load p; fill p (some (record n { next = q }))

unfoldable pub set_prev : Ptr → Ptr → Action (Unit {0})
set_prev p q = do n ← load p; fill p (some (record n { prev = q }))

unfoldable pub set_payload : Ptr → Ptr → Action (Unit {0})
set_payload p d = do n ← load p; fill p (some (record n { payload = d }))

-- `calloc` of a node: the allocator's answer is `fresh`, and the block is zeroed.
unfoldable pub calloc : (fresh : Ptr) → Action Ptr
calloc fresh =
    if fresh == null then pure null else do fill fresh (some (node null null null)); pure fresh

unfoldable pub free : Ptr → Action (Unit {0})
free p = load p >> fill p none
