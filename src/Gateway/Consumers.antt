-- ===== src/Gateway/Consumers.antt =====
-- The locks of final-assignment/main-server.c: `connection_mgr` pushes to the shared list, `data_mgr`
-- and `storage_mgr` take its first node under `cnt_mutex`. A step is one action of one thread on a
-- mutex, the condition or a node; `none` means that the thread sleeps.
mod Moves
pub mod Nodes
pub mod Progress
mod Tests
use linux_programing.Common.{
  ℕ, ◌+◌, Bool, true, false, Option, none, some, List, [], ◌∷◌, ◌++◌, ◌≡◌, length, ltb, ◌==◌,
  if◌then◌else◌,
}

-- `shared_data->max_size`
abbrev pub max_size : ℕ
max_size = 100

-- The addresses of the nodes, oldest first, whether each mutex is held, and `cnt`.
pub record Shared : Type 0 where
  pub nodes : List ℕ
  pub mutex : Bool
  pub cnt_mutex : Bool
  pub cnt : ℕ

-- Where `connection_mgr` stands: before `list_push`, in it before the node is linked, before the
-- broadcast, and before the unlock.
pub data Producer : Type 0 where
  idle : Producer
  pushing : (node : ℕ) → Producer
  linked : Producer
  leaving : Producer

-- Where a consumer stands: at the top of its loop, before the lock of the list, in the loop that
-- tests `first_node`, in `cond_wait`, after the wake-up, with `first` and the list unlocked, before
-- the test of `cnt`, before and behind the lock of `list_remove_first_node`, behind its `free`, and
-- before the unlock of `cnt_mutex`. `faulted`: it read a node that is not in the list.
pub data Consumer : Type 0 where
  top entering testing sleeping woken : Consumer
  unlocking holding : (first : ℕ) → Consumer
  counting removing detaching detached returning faulted : Consumer

abbrev pub mem : ℕ → List ℕ → Bool
mem n [] = false
mem n (x ∷ xs) = if x == n then true else mem n xs

-- A node is pushed at an address that no node of the list has.
pub producer_move : Producer → Shared → Option (Producer × Shared)
producer_move idle s = none
producer_move (pushing n) s =
    if ltb (length s.nodes) max_size
    then some (linked, record s { nodes = s.nodes ++ n ∷ [] })
    else some (leaving, s)
producer_move linked s = none
producer_move leaving s = some (idle, record s { mutex = false })

take_first : List ℕ → Consumer
take_first [] = sleeping
take_first (n ∷ nodes) = unlocking n

drop_first : List ℕ → List ℕ
drop_first [] = []
drop_first (n ∷ nodes) = nodes

-- `same` is the answer of `strcmp(msg, old_msg)`, which reads the text through the node. A consumer
-- that goes to sleep gives the mutex of the list back, and takes it again when it is woken.
pub consumer_move : (same : Bool) → Consumer → Shared → Option (Consumer × Shared)
unfolding take_first drop_first
consumer_move same top s =
    if s.cnt_mutex then none else some (entering, record s { cnt_mutex = true })
consumer_move same entering s = if s.mutex then none else some (testing, record s { mutex = true })
consumer_move same testing s =
    some (take_first s.nodes, (elim s.nodes [ [] ↦ record s { mutex = false } | n ∷ nodes ↦ s ]))
consumer_move same sleeping s = none
consumer_move same woken s = if s.mutex then none else some (testing, record s { mutex = true })
consumer_move same (unlocking n) s = some (holding n, record s { mutex = false })
consumer_move same (holding n) s =
    if mem n s.nodes
    then if same then some (returning, s) else some (counting, record s { cnt = s.cnt + 1 })
    else some (faulted, s)
consumer_move same counting s =
    if s.cnt == 2 then some (removing, record s { cnt = 0 }) else some (returning, s)
consumer_move same removing s =
    if s.mutex then none else some (detaching, record s { mutex = true })
consumer_move same detaching s = some (detached, record s { nodes = drop_first s.nodes })
consumer_move same detached s = some (returning, record s { mutex = false })
consumer_move same returning s = some (top, record s { cnt_mutex = false })
consumer_move same faulted s = none

pub record System : Type 0 where
  pub shared : Shared
  pub producer : Producer
  pub data_mgr : Consumer
  pub storage_mgr : Consumer

-- `list_create(100)`, with all threads at their start.
abbrev pub initial : System
initial = record {
  shared = record { nodes = []; mutex = false; cnt_mutex = false; cnt = 0 };
  producer = idle;
  data_mgr = top;
  storage_mgr = top;
}

-- `cond_broadcast`
abbrev pub wake : Consumer → Consumer
wake sleeping = woken
wake c = c

-- A message arrives, and the producer locks the list; it goes on; it wakes the consumers; one of the
-- consumers goes on, or wakes up for no reason.
pub data Step (s : System) : System → Type 0 where
  arrive :
      (node : ℕ)
      → s.producer ≡ idle
      → s.shared.mutex ≡ false
      → mem node s.shared.nodes ≡ false
      → Step s (record s { producer = pushing node; shared = record (s.shared) { mutex = true } })
  produce :
      {p : Producer} {sh : Shared}
      → producer_move s.producer s.shared ≡ some (p, sh)
      → Step s (record s { producer = p; shared = sh })
  broadcast :
      s.producer ≡ linked
      → Step s (record s {
        producer = leaving;
        data_mgr = wake s.data_mgr;
        storage_mgr = wake s.storage_mgr;
      })
  serve_data :
      {c : Consumer} {sh : Shared} (same : Bool)
      → consumer_move same s.data_mgr s.shared ≡ some (c, sh)
      → Step s (record s { data_mgr = c; shared = sh })
  serve_storage :
      {c : Consumer} {sh : Shared} (same : Bool)
      → consumer_move same s.storage_mgr s.shared ≡ some (c, sh)
      → Step s (record s { storage_mgr = c; shared = sh })
  spurious_data : s.data_mgr ≡ sleeping → Step s (record s { data_mgr = woken })
  spurious_storage : s.storage_mgr ≡ sleeping → Step s (record s { storage_mgr = woken })

pub data Reach : System → Type 0 where
  start : Reach initial
  next : {s t : System} → Reach s → Step s t → Reach t
