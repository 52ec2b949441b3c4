-- ===== src/Gateway/Setup/Shutdown.antt =====
-- final-assignment/main-server.c, `main`: how the two processes end, and what is in the log by then.
use mathlib.Core.List.{append_assoc, append-nil, map-append}
use linux_programing.Common.{
  ℕ, ◌≡◌, ◌≢◌, ◌&&◌, refl, Bool, true, false, some, List, [], ◌∷◌, ◌++◌, map, arith,
}
use linux_programing.Gateway.Setup.{
  Parent, p_pipe, p_fork, p_close, p_gone, p_killed, Child, c_absent, c_close, c_write, c_finish,
  c_exited, c_failed, State, initial, Act, reports, Answer, parent_step, child_at, child_step,
  prevent_zombie, run_parent, run_child, signalled, Run, here, next,
}

-- The block that the child has read and not tried to append.
abbrev pub in_hand : Child → List (List ℕ)
in_hand (c_write recv_buf) = recv_buf ∷ []
in_hand _ = []

abbrev pub block_of : List ℕ × Bool → List ℕ
block_of a = a.0

-- The ends of the parent.
abbrev pub Parts : Parent → Child → (reads writes : Bool) → Type 0
Parts p_pipe c r w = (c ≡ c_absent) × (r ≡ false) × (w ≡ false)
Parts p_fork c r w = (c ≡ c_absent) × (r ≡ true) × (w ≡ true)
Parts p_close c r w = (r ≡ true) × (w ≡ true)
Parts p_gone c r w = (r ≡ false) × (w ≡ false)
Parts p_killed c r w = (c ≡ c_failed) × (r ≡ false) × (w ≡ false)
Parts p c r w = (r ≡ false) × (w ≡ true)

-- The ends of the child.
abbrev pub Holds : Child → (reads writes : Bool) → Type 0
Holds c_absent r w = (r ≡ false) × (w ≡ false)
Holds c_close r w = (r ≡ true) × (w ≡ true)
Holds c_exited r w = (r ≡ false) × (w ≡ false)
Holds c_failed r w = (r ≡ false) × (w ≡ false)
Holds c r w = (r ≡ true) × (w ≡ false)

-- A child that has read the end of the pipe.
abbrev pub Drained : Child → Parent → List (List ℕ) → Type 0
Drained c_finish p pipe = (p ≡ p_gone) × (pipe ≡ [])
Drained c_exited p pipe = (p ≡ p_gone) × (pipe ≡ [])
Drained _ p pipe = Unit

-- Before the fork the child is absent, and behind it only when the parent has gone.
abbrev pub Forked : Parent → Child → Type 0
Forked p_pipe c = c ≡ c_absent
Forked p_fork c = c ≡ c_absent
Forked p_gone c = Unit
Forked p c = c ≢ c_absent

pub record IsServer (s : State) : Type 0 where
  pub parts : Parts s.parent s.child s.parent_reads s.parent_writes
  pub holds : Holds s.child s.child_reads s.child_writes
  pub drained : Drained s.child s.parent s.pipe
  pub forked : Forked s.parent s.child

parent-IsServer :
    (capacity : ℕ) (act : Act) (s t : State)
    → parent_step capacity act s ≡ some t
    → IsServer s
    → IsServer t
unfolding parent_step
parent-IsServer capacity act s t e v = ground (arith, v)

child-IsServer : (a : Answer) (s t : State) → child_step a s ≡ some t → IsServer s → IsServer t
unfolding child_step
child-IsServer a s t e v = ground (arith, v)

-- Every block that was written is tried, in hand or in the pipe, in order.
abbrev pub Whole : State → Type 0
Whole s = map block_of s.attempts ++ (in_hand s.child ++ s.pipe) ≡ s.sent

Whole-written :
    (tried hand pipe : List (List ℕ)) (msg : List ℕ)
    → tried ++ (hand ++ (pipe ++ msg ∷ [])) ≡ (tried ++ (hand ++ pipe)) ++ msg ∷ []
Whole-written tried hand pipe msg = simp append_assoc

Whole-tried :
    (attempts : List (List ℕ × Bool)) (block : List ℕ) (kept : Bool) (pipe : List (List ℕ))
    → map block_of (attempts ++ (block, kept) ∷ []) ++ pipe
      ≡ map block_of attempts ++ (block ∷ pipe)
Whole-tried attempts block kept pipe = simp (map-append, append_assoc)

parent-Whole :
    (capacity : ℕ) (act : Act) (s t : State)
    → parent_step capacity act s ≡ some t
    → IsServer s
    → Whole s
    → Whole t
unfolding parent_step
parent-Whole capacity (reports msg kept) s t e v w =
    ground (arith, v.forked, Whole-written (map block_of s.attempts) (in_hand s.child) s.pipe msg)
parent-Whole capacity act s t e v w = ground (arith, v.forked)

child-Whole :
    (c : Child) (a : Answer) (s t : State)
    → s.child ≡ c
    → child_at c a s ≡ some t
    → Whole s
    → Whole t
unfolding child_at
child-Whole (c_write block) a s t at e w =
    ground (arith, Whole-tried s.attempts block (a.succeeds && s.opened) s.pipe)
child-Whole c a s t at e w = ground arith

pub Run-IsServer : (capacity : ℕ) {s : State} → Run capacity initial s → IsServer s × Whole s
unfolding prevent_zombie
Run-IsServer capacity here =
    (record { parts = (refl, refl, refl); holds = (refl, refl); drained = tt; forked = refl }, refl)
Run-IsServer capacity (next {t = s} {u = t} r (run_parent act e)) =
    let (v, w) = Run-IsServer capacity r in
    (parent-IsServer capacity act s t e v, parent-Whole capacity act s t e v w)
Run-IsServer capacity (next {t = s} {u = t} r (run_child a e)) =
    let (v, w) = Run-IsServer capacity r in
    (child-IsServer a s t e v, child-Whole s.child a s t refl (unfold child_step in e) w)
Run-IsServer capacity (next {t = s} r (signalled p)) =
    let (v, w) = Run-IsServer capacity r in
    (record { parts = v.parts; holds = v.holds; drained = v.drained; forked = v.forked }, w)

-- Whenever the log process has ended by `_exit(0)`, the server has gone, and every block that was ever
-- written to the pipe has been tried once at the log, in order.
pub exited_complete :
    (capacity : ℕ) {s : State}
    → Run capacity initial s
    → s.child ≡ c_exited
    → (s.parent ≡ p_gone) × (map block_of s.attempts ≡ s.sent)
exited_complete capacity {s} r e =
    let (v, w) = Run-IsServer capacity r in
    ground (arith, v.drained, w, append-nil (map block_of s.attempts))

-- Whenever SIGPIPE has ended the server, the log process has failed before: no report is written to a
-- pipe whose reader has ended by `_exit(0)` or still runs.
pub killed_failed :
    (capacity : ℕ) {s : State} → Run capacity initial s → s.parent ≡ p_killed → s.child ≡ c_failed
killed_failed capacity r e = let (v, w) = Run-IsServer capacity r in ground (arith, v.parts)
