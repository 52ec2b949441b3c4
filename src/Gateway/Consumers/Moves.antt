-- ===== src/Gateway/Consumers/Moves.antt =====
-- main-server.c and os_list.c: one move of a thread, and the nodes that the consumers look at.
use mathlib.Core.Path.{subst}
use linux_programing.Common.{
  ℕ, ◌+◌, Bool, true, false, some, List, [], ◌∷◌, ◌++◌, ◌≡◌, ◌≢◌, refl, ◌⊎◌, inl, inr, length, ltb,
  arith, Bool-cases,
}
use linux_programing.Gateway.Consumers.{
  Shared, Producer, idle, pushing, linked, leaving, Consumer, top, entering, testing, sleeping,
  woken, unlocking, holding, counting, removing, detaching, detached, returning, faulted, max_size,
  producer_move, take_first, drop_first, consumer_move, wake,
}

-- Whether a thread holds the mutex of the list, and `cnt_mutex`.
abbrev pub produces : Producer → ℕ
produces idle = 0
produces _ = 1

abbrev pub locks : Consumer → ℕ
locks testing = 1
locks (unlocking n) = 1
locks detaching = 1
locks detached = 1
locks _ = 0

abbrev pub counts : Consumer → ℕ
counts top = 0
counts faulted = 0
counts _ = 1

abbrev pub bit : Bool → ℕ
bit true = 1
bit false = 0

-- The node that a consumer has taken is the first; one that sleeps does so over an empty list, or is
-- about to be woken.
abbrev pub IsAt : Producer → List ℕ → Consumer → Type 0
IsAt p nodes (unlocking n) = (rest : List ℕ) × (nodes ≡ n ∷ rest)
IsAt p nodes (holding n) = (rest : List ℕ) × (nodes ≡ n ∷ rest)
IsAt p nodes sleeping = (nodes ≡ []) ⊎ (p ≡ linked)
IsAt p nodes faulted = ⊥
IsAt p nodes _ = Unit

-- A move of one consumer `c`, beside the producer `p` and the other consumer `o`.
pub record Moved (p : Producer) (o c : Consumer) (s : Shared) : Type 0 where
  pub list_lock : bit s.mutex ≡ produces p + locks c + locks o
  pub count_lock : bit s.cnt_mutex ≡ counts c + counts o
  pub at : IsAt p s.nodes c
  pub other_at : IsAt p s.nodes o

pub consumer-Moved :
    (p : Producer) (o c c' : Consumer) (same : Bool) (s s' : Shared)
    → Moved p o c s
    → consumer_move same c s ≡ some (c', s')
    → Moved p o c' s'
unfolding consumer_move take_first drop_first
consumer-Moved p o top c' same s s' v e = ground (arith, v)
consumer-Moved p o entering c' same s s' v e = ground (arith, v)
consumer-Moved p o testing c' same s s' v e = ground (arith, v)
consumer-Moved p o sleeping c' same s s' v e = ground (arith, v)
consumer-Moved p o woken c' same s s' v e = ground (arith, v)
consumer-Moved p o (unlocking n) c' same s s' v e = ground (arith, v)
consumer-Moved p o (holding n) c' same s s' v e = ground (arith, v)
consumer-Moved p o counting c' same s s' v e = ground (arith, v)
consumer-Moved p o removing c' same s s' v e = ground (arith, v)
consumer-Moved p o detaching c' same s s' v e = ground (arith, v)
consumer-Moved p o detached c' same s s' v e = ground (arith, v)
consumer-Moved p o returning c' same s s' v e = ground (arith, v)
consumer-Moved p o faulted c' same s s' v e = ground (arith, v)

pub pushed-first :
    (p' : Producer) (n m : ℕ) (s s' : Shared) (rest : List ℕ)
    → producer_move (pushing m) s ≡ some (p', s')
    → s.nodes ≡ n ∷ rest
    → (after : List ℕ) × (s'.nodes ≡ n ∷ after)
unfolding producer_move
pushed-first p' n m s s' rest e a = elim (Bool-cases (ltb (length s.nodes) max_size)) [
  | inl room ↦ (rest ++ m ∷ [], ground (arith, e, a, room))
  | inr full ↦ (rest, ground (arith, e, a, full))
]

-- What a move of the producer does to the list a consumer looks at.
pub producer-IsAt :
    (p p' : Producer) (s s' : Shared) (c : Consumer)
    → producer_move p s ≡ some (p', s')
    → p ≢ linked
    → IsAt p s.nodes c
    → IsAt p' s'.nodes c
unfolding producer_move
producer-IsAt idle p' s s' c e ne a = ground (arith, a)
producer-IsAt (pushing m) p' s s' (unlocking n) e ne (rest, a) = pushed-first p' n m s s' rest e a
producer-IsAt (pushing m) p' s s' (holding n) e ne (rest, a) = pushed-first p' n m s s' rest e a
producer-IsAt (pushing m) p' s s' sleeping e ne a = ground (arith, a)
producer-IsAt (pushing m) p' s s' faulted e ne a = absurd a
producer-IsAt (pushing m) p' s s' c e ne a = tt
producer-IsAt linked p' s s' c e ne a = absurd (ne refl)
producer-IsAt leaving p' s s' c e ne a = ground (arith, a)

pub producer-locks :
    (p p' : Producer) (s s' : Shared) (others : ℕ)
    → producer_move p s ≡ some (p', s')
    → bit s.mutex ≡ produces p + others
    → (bit s'.mutex ≡ produces p' + others) × (s'.cnt_mutex ≡ s.cnt_mutex)
unfolding producer_move
producer-locks p p' s s' others e held = ground (arith, held)

pub wake-locks : (c : Consumer) → (locks (wake c) ≡ locks c) × (counts (wake c) ≡ counts c)
wake-locks c = ground arith

pub wake-IsAt : (nodes : List ℕ) (c : Consumer) → IsAt linked nodes c → IsAt leaving nodes (wake c)
wake-IsAt nodes c a = ground (arith, a)

-- A message arrives at the idle producer.
pub arrived-IsAt :
    (nodes : List ℕ) (node : ℕ) (c : Consumer) → IsAt idle nodes c → IsAt (pushing node) nodes c
arrived-IsAt nodes node c a = ground (arith, a)

pub moved :
    {p q : Producer} (nodes : List ℕ) (c : Consumer) → p ≡ q → IsAt p nodes c → IsAt q nodes c
moved nodes c e a = subst (λ p. IsAt p nodes c) e a

pub moved-not_linked :
    (p p' : Producer) (s s' : Shared) → producer_move p s ≡ some (p', s') → p ≢ linked
unfolding producer_move
moved-not_linked p p' s s' e l = ground (arith, e, l)
