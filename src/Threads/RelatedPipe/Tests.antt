-- ===== src/Threads/RelatedPipe/Tests.antt =====
-- related_pipe/main.c at a concrete run.
use linux_programing.Common.{◌≡◌, ◌≢◌, refl, true, false, none, List, ℕ, [], ◌∷◌, ◌++◌}
use linux_programing.Threads.RelatedPipe.{
  msg1, p_write2, c_reading, c_ended, State, parent_step, child_step, parent_at, child_at,
  write_pipe, read_pipe, run_parent, run_child, Reach, start, next,
}
use linux_programing.Threads.RelatedPipe.Flow.{sent}
use linux_programing.Threads.RelatedPipe.Order.{never_ended}

-- The first message has been written and read.
abbrev printed_one : State
printed_one = record {
  pipe = [];
  parent_read = false;
  parent_write = true;
  child_read = true;
  child_write = true;
  printed = msg1 ∷ [];
  parent = p_write2;
  child = c_reading;
}

run : Reach printed_one
unfolding parent_step child_step parent_at child_at write_pipe read_pipe
run = next (next (next start (run_parent refl)) (run_parent refl)) (run_child false refl)

never_ended_example :
    (printed_one.child ≢ c_ended)
    × (printed_one.child ≡ c_reading
        → (left : List (List ℕ)) × (printed_one.printed ++ left ≡ sent printed_one.parent))
    × (printed_one.child ≡ c_reading → printed_one.pipe ≡ [] → child_step false printed_one ≡ none)
never_ended_example = never_ended run
