-- ===== src/Gateway/Consumers/Progress.antt =====
-- main-server.c and os_list.c: the threads do not block each other while there is work.
use mathlib.Core.Path.{subst}
use linux_programing.Common.{
  ◌==◌, ℕ, ◌+◌, Bool, true, false, some, List, [], ◌∷◌, ◌≡◌, ◌≢◌, ◌++◌, sym, refl, ◌⊎◌, inl, inr,
  length, ltb, arith, Bool-cases,
}
use linux_programing.Gateway.Consumers.{
  Shared, Producer, idle, pushing, linked, leaving, Consumer, top, entering, testing, sleeping,
  woken, unlocking, holding, counting, removing, detaching, detached, returning, faulted, max_size,
  producer_move, consumer_move, mem, System, Reach,
}
use linux_programing.Gateway.Consumers.Moves.{locks, counts, bit, IsAt}
use linux_programing.Gateway.Consumers.Nodes.{IsSystem, Reach-IsSystem}

-- A consumer can go on, the message being a new one or not.
abbrev pub Serves : Consumer → Shared → Type 0
Serves c s =
    (same : Bool) × (c' : Consumer) × (s' : Shared) × (consumer_move same c s ≡ some (c', s'))

abbrev pub Produces : Producer → Shared → Type 0
Produces p s = (p' : Producer) × (s' : Shared) × (producer_move p s ≡ some (p', s'))

testing-Serves : (s : Shared) → Serves testing s
unfolding consumer_move
testing-Serves s = (true, _, _, refl)

-- Who holds the mutex of the list can go on.
locks-Serves : (c : Consumer) (s : Shared) → locks c ≡ 1 → Serves c s
unfolding consumer_move
locks-Serves testing s h = testing-Serves s
locks-Serves (unlocking n) s h = (true, _, _, refl)
locks-Serves detaching s h = (true, _, _, refl)
locks-Serves detached s h = (true, _, _, refl)
locks-Serves top s h = absurd (omega (arith, h))
locks-Serves entering s h = absurd (omega (arith, h))
locks-Serves sleeping s h = absurd (omega (arith, h))
locks-Serves woken s h = absurd (omega (arith, h))
locks-Serves (holding n) s h = absurd (omega (arith, h))
locks-Serves counting s h = absurd (omega (arith, h))
locks-Serves removing s h = absurd (omega (arith, h))
locks-Serves returning s h = absurd (omega (arith, h))
locks-Serves faulted s h = absurd (omega (arith, h))

-- With the mutex of the list free, who holds `cnt_mutex` can go on, but for a sleeper.
free-Serves :
    (c : Consumer) (s : Shared) → s.mutex ≡ false → counts c ≡ 1 → c ≢ sleeping → Serves c s
unfolding consumer_move
free-Serves top s free h ne = absurd (omega (arith, h))
free-Serves faulted s free h ne = absurd (omega (arith, h))
free-Serves sleeping s free h ne = absurd (ne refl)
free-Serves entering s free h ne = (true, testing, record s { mutex = true }, ground (arith, free))
free-Serves woken s free h ne = (true, testing, record s { mutex = true }, ground (arith, free))
free-Serves removing s free h ne =
    (true, detaching, record s { mutex = true }, ground (arith, free))
free-Serves testing s free h ne = testing-Serves s
free-Serves (unlocking n) s free h ne = (true, _, _, refl)
free-Serves (holding n) s free h ne = elim (Bool-cases (mem n s.nodes)) [
  | inl inside ↦ (true, returning, s, ground (arith, inside))
  | inr outside ↦ (true, faulted, s, ground (arith, outside))
]
free-Serves counting s free h ne = elim (Bool-cases (s.cnt == 2)) [
  | inl two ↦ (true, removing, record s { cnt = 0 }, ground (arith, two))
  | inr other ↦ (true, returning, s, ground (arith, other))
]
free-Serves detaching s free h ne = (true, _, _, refl)
free-Serves detached s free h ne = (true, _, _, refl)
free-Serves returning s free h ne = (true, _, _, refl)

top-Serves : (s : Shared) → s.cnt_mutex ≡ false → Serves top s
unfolding consumer_move
top-Serves s free = (true, entering, record s { cnt_mutex = true }, ground (arith, free))

-- Over a list with a node, and a producer that is not about to wake anyone, nobody sleeps.
awake :
    (p : Producer) (nodes : List ℕ) (c : Consumer)
    → IsAt p nodes c
    → nodes ≢ []
    → p ≢ linked
    → c ≢ sleeping
awake p nodes c at full ne = λ e. ground (arith, subst (IsAt p nodes) e at)

locks-cases : (c : Consumer) → (locks c ≡ 1) ⊎ (locks c ≡ 0)
locks-cases testing = inl refl
locks-cases (unlocking n) = inl refl
locks-cases detaching = inl refl
locks-cases detached = inl refl
locks-cases c = inr refl

counts-cases : (c : Consumer) → (counts c ≡ 1) ⊎ ((c ≡ top) ⊎ (c ≡ faulted))
counts-cases top = inr (inl refl)
counts-cases faulted = inr (inr refl)
counts-cases c = inl refl

-- One consumer beside the other, with the mutex of the list free and a node in it.
one-Serves :
    (p : Producer) (c o : Consumer) (s : Shared)
    → IsAt p s.nodes c
    → s.nodes ≢ []
    → p ≢ linked
    → s.mutex ≡ false
    → bit s.cnt_mutex ≡ counts c + counts o
    → counts o ≡ 0
    → Serves c s
one-Serves p c o s at full ne free count other = elim (counts-cases c) [
  | inl one ↦ free-Serves c s free one (awake p s.nodes c at full ne)
  | inr (inl is_top) ↦
      subst (λ x. Serves x s) (sym is_top) (top-Serves s (ground (arith, count, is_top, other)))
  | inr (inr is_faulted) ↦ absurd (subst (IsAt p s.nodes) is_faulted at)
]

counts-zero : (c : Consumer) → (c ≡ top) ⊎ (c ≡ faulted) → counts c ≡ 0
counts-zero c (inl e) = ground (arith, e)
counts-zero c (inr e) = ground (arith, e)

idle-Serves :
    (s : System)
    → IsSystem s
    → s.shared.nodes ≢ []
    → s.producer ≡ idle
    → Serves s.data_mgr s.shared ⊎ Serves s.storage_mgr s.shared
idle-Serves s v full e = elim (locks-cases s.data_mgr) [
  | inl holds ↦ inl (locks-Serves s.data_mgr s.shared holds)
  | inr d0 ↦ elim (locks-cases s.storage_mgr) [
    | inl holds ↦ inr (locks-Serves s.storage_mgr s.shared holds)
    | inr s0 ↦
        let free : s.shared.mutex ≡ false = ground (arith, v.list_lock, e, d0, s0) in
        let ne : s.producer ≢ linked = λ q. ground (arith, q, e) in
        elim (counts-cases s.data_mgr) [
          | inl one ↦ inl (
              free-Serves s.data_mgr s.shared free one
                (awake s.producer s.shared.nodes s.data_mgr v.data_at full ne))
          | inr none_held ↦ inr (
              one-Serves s.producer s.storage_mgr s.data_mgr s.shared v.storage_at full ne free
                (omega (arith, v.count_lock)) (counts-zero s.data_mgr none_held))
        ]
  ]
]

producer-Produces : (p : Producer) (s : Shared) → (p ≡ idle) ⊎ ((p ≡ linked) ⊎ Produces p s)
unfolding producer_move
producer-Produces idle s = inl refl
producer-Produces (pushing n) s = elim (Bool-cases (ltb (length s.nodes) max_size)) [
  | inl room ↦ inr (inr (linked, record s { nodes = s.nodes ++ n ∷ [] }, ground (arith, room)))
  | inr none_left ↦ inr (inr (leaving, s, ground (arith, none_left)))
]
producer-Produces linked s = inr (inl refl)
producer-Produces leaving s = inr (inr (_, _, refl))

-- In every state that the three threads reach with a node in the list, one of them can go on, without a
-- new message and without a spurious wake-up: the producer is about to wake the consumers or can make
-- its next move, or one of the consumers can.
pub never_stuck :
    {s : System}
    → Reach s
    → s.shared.nodes ≢ []
    → ((s.producer ≡ linked) ⊎ Produces s.producer s.shared)
      ⊎ (Serves s.data_mgr s.shared ⊎ Serves s.storage_mgr s.shared)
never_stuck {s} r full = elim (producer-Produces s.producer s.shared) [
  | inl e ↦ inr (idle-Serves s (Reach-IsSystem r) full e)
  | inr moves ↦ inl moves
]
