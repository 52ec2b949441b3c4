-- ===== src/Gateway/Setup/Ending.antt =====
-- final-assignment/main-server.c, `main`: the log process can always end once the server has gone.
use linux_programing.Common.{
  ℕ, ◌≡◌, ◌≢◌, refl, true, false, some, List, [], ◌∷◌, ◌++◌, map, arith, ◌∙◌,
}
use linux_programing.Gateway.Setup.{
  p_gone, Child, c_absent, c_close, c_open, c_read, c_write, c_finish, c_exited, c_failed, State,
  initial, Answer, child_step, run_child, Run, here, next,
}
use linux_programing.Gateway.Setup.Shutdown.{block_of, IsServer, Run-IsServer, exited_complete}

abbrev granted : Answer
granted = record { succeeds = true; fd = some 3 }

Run-trans : {capacity : ℕ} {s t u : State} → Run capacity s t → Run capacity t u → Run capacity s u
Run-trans r here = r
Run-trans r (next q st) = next (Run-trans r q) st

-- The child can end by `_exit(0)`, and then every block that had been written is tried.
abbrev Ends : ℕ → State → Type 0
Ends capacity s = (t : State) × Run capacity s t × (t.child ≡ c_exited) × (t.sent ≡ s.sent)

Ends-step :
    (capacity : ℕ) (a : Answer) (s t : State)
    → child_step a s ≡ some t
    → t.sent ≡ s.sent
    → Ends capacity t
    → Ends capacity s
Ends-step capacity a s t e same (u, r, at, kept) =
    (u, Run-trans (next here (run_child a e)) r, at, rw kept same)

-- Nobody is left to write.
abbrev Left : State → Type 0
Left s = (s.parent_writes ≡ false) × (s.child_writes ≡ false)

finish-Ends : (capacity : ℕ) (s : State) → s.child ≡ c_finish → Ends capacity s
unfolding child_step
finish-Ends capacity s at =
    let t : State = record s {
      child = c_exited;
      child_reads = false;
      child_writes = false;
      pending = s.handler;
    } in
    Ends-step capacity granted s t (ground (arith, at)) refl (t, here, refl, refl)

read-Ends :
    (capacity : ℕ) (pipe : List (List ℕ)) (s : State)
    → Left s
    → s.child ≡ c_read
    → s.pipe ≡ pipe
    → Ends capacity s
unfolding child_step
read-Ends capacity [] s left at e =
    let t : State = record s { child = c_finish } in
    Ends-step capacity granted s t (ground (arith, at, e, left)) refl (finish-Ends capacity t refl)
read-Ends capacity (block ∷ blocks) s left at e =
    let t : State = record s { child = c_write block; pipe = blocks } in
    let u : State = record t { child = c_read; attempts = s.attempts ++ (block, s.opened) ∷ [] } in
    Ends-step capacity granted s t (ground (arith, at, e)) refl (
      Ends-step capacity granted t u (ground arith) refl
        (read-Ends capacity blocks u left refl refl))

write-Ends :
    (capacity : ℕ) (block : List ℕ) (s : State) → Left s → s.child ≡ c_write block → Ends capacity s
unfolding child_step
write-Ends capacity block s left at =
    let t : State = record s { child = c_read; attempts = s.attempts ++ (block, s.opened) ∷ [] } in
    Ends-step capacity granted s t (ground (arith, at)) refl
      (read-Ends capacity s.pipe t left refl refl)

open-Ends : (capacity : ℕ) (s : State) → Left s → s.child ≡ c_open → Ends capacity s
unfolding child_step
open-Ends capacity s left at =
    let t : State = record s { child = c_read; opened = true } in
    Ends-step capacity granted s t (ground (arith, at)) refl
      (read-Ends capacity s.pipe t left refl refl)

close-Ends :
    (capacity : ℕ) (s : State) → s.parent_writes ≡ false → s.child ≡ c_close → Ends capacity s
unfolding child_step
close-Ends capacity s left at =
    let t : State = record s { child = c_open; child_writes = false } in
    Ends-step capacity granted s t (ground (arith, at)) refl
      (open-Ends capacity t (left, refl) refl)

child-Ends :
    (capacity : ℕ) (c : Child) (s : State)
    → IsServer s
    → s.parent ≡ p_gone
    → s.child ≡ c
    → c ≢ c_absent
    → c ≢ c_failed
    → Ends capacity s
child-Ends capacity c_absent s v gone at ne nf = absurd (ne refl)
child-Ends capacity c_close s v gone at ne nf =
    close-Ends capacity s (ground (arith, v.parts, gone)) at
child-Ends capacity c_open s v gone at ne nf =
    open-Ends capacity s (ground (arith, v.parts, v.holds, gone, at)) at
child-Ends capacity c_read s v gone at ne nf =
    read-Ends capacity s.pipe s (ground (arith, v.parts, v.holds, gone, at)) at refl
child-Ends capacity (c_write block) s v gone at ne nf =
    write-Ends capacity block s (ground (arith, v.parts, v.holds, gone, at)) at
child-Ends capacity c_finish s v gone at ne nf = finish-Ends capacity s at
child-Ends capacity c_exited s v gone at ne nf = (s, here, at, refl)
child-Ends capacity c_failed s v gone at ne nf = absurd (nf refl)

-- Whenever the server has gone, a log process that was forked and has not failed can run on to
-- `_exit(0)`, and then every block that the server had written to the pipe has been tried once at the
-- log, in order.
pub exits_behind_server :
    (capacity : ℕ) {s : State}
    → Run capacity initial s
    → s.parent ≡ p_gone
    → s.child ≢ c_absent
    → s.child ≢ c_failed
    → (t : State) × Run capacity s t × (t.child ≡ c_exited) × (map block_of t.attempts ≡ s.sent)
exits_behind_server capacity {s} r gone ne nf =
    let (t, q, at, same) =
      child-Ends capacity s.child s (Run-IsServer capacity r).0 gone refl ne nf in
    (t, q, at, (exited_complete capacity (Run-trans r q) at).1 ∙ same)
