-- ===== src/Gateway/Setup/Tests.antt =====
-- final-assignment/main-server.c, `main`, at concrete runs.
use linux_programing.Common.{ℕ, ◌≡◌, refl, true, false, none, List, [], ◌∷◌, map}
use linux_programing.Gateway.Setup.{
  p_gone, p_killed, p_running, c_close, c_exited, c_failed, State, initial, quits, goes_on, reports,
  Answer, parent_step, child_step, prevent_zombie, run_parent, run_child, signalled, Run, here,
  next,
}
use linux_programing.Gateway.Setup.Shutdown.{block_of, killed_failed}
use linux_programing.Gateway.Setup.Ending.{exits_behind_server}

abbrev refused : Answer
refused = record { succeeds = false; fd = none }

abbrev blocks : List (List ℕ)
blocks = (b'h' ∷ []) ∷ []

abbrev set_up : State
set_up = record initial {
  parent = p_running;
  child = c_close;
  parent_writes = true;
  child_reads = true;
  child_writes = true;
  handler = true;
}

abbrev server_gone : State
server_gone = record set_up {
  parent = p_gone;
  pipe = blocks;
  sent = blocks;
  parent_writes = false;
  handler = false;
}

abbrev server_killed : State
server_killed = record initial { parent = p_killed; child = c_failed; reaped = true }

setting_up : Run 16 initial set_up
unfolding parent_step
setting_up =
    let forked = next (next here (run_parent goes_on refl)) (run_parent goes_on refl) in
    let closed = next (next forked (run_parent goes_on refl)) (run_parent goes_on refl) in
    next closed (run_parent goes_on refl)

-- One message is reported, and the server ends.
going : Run 16 initial server_gone
unfolding parent_step
going = next (next setting_up (run_parent (reports (b'h' ∷ []) true) refl)) (run_parent quits refl)

-- The child cannot close its end, and the handler takes it before the next report.
killing : Run 16 initial server_killed
unfolding parent_step child_step prevent_zombie
killing =
    let failed = next (next setting_up (run_child refused refl)) (signalled refl) in
    next failed (run_parent (reports (b'h' ∷ []) true) refl)

killed_failed_example : server_killed.child ≡ c_failed
killed_failed_example = killed_failed 16 killing refl

exits_behind_server_example :
    (t : State) × Run 16 server_gone t
    × (t.child ≡ c_exited)
    × (map block_of t.attempts ≡ server_gone.sent)
exits_behind_server_example = exits_behind_server 16 going refl (λ e. cc) (λ e. cc)
