-- ===== src/Zombies/Tests.antt =====
-- safe-fork/main.c and zombie/ass2.c at a concrete run.
use linux_programing.Common.{◌≡◌, refl, true, some}
use linux_programing.Zombies.{
  p_print, p_looping, c_running, c_zombie, c_reaped, State, initial, main_at, wait_at, parent_step,
  ends_at, child_ends, deliver, run_parent, signalled, Run, here, next,
}
use linux_programing.Zombies.Reaped.{child_fate}

-- The child runs, and the handler is set.
abbrev watched : State
watched = record initial { parent = p_print; child = c_running; handler = true }

abbrev ended : State
ended = record watched { child = c_zombie; pending = true }

abbrev reaped : State
reaped = record watched { parent = p_looping; child = c_reaped }

to_watched : Run initial watched
unfolding parent_step main_at
to_watched = next (next here (run_parent true refl)) (run_parent true refl)

-- The signal comes in the loop.
to_reaped : Run ended reaped
unfolding parent_step main_at wait_at deliver
to_reaped = next (next (next here (run_parent true refl)) (signalled refl)) (run_parent true refl)

ends : child_ends watched ≡ some ended
unfolding child_ends ends_at
ends = refl

child_fate_example : reaped.child ≡ c_reaped
child_fate_example = child_fate to_watched ends to_reaped refl refl
