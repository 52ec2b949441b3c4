-- ===== src/Zombies.antt =====
-- 03-process/safe-fork/main.c and BTVN/03-process/zombie/ass2.c: a parent that reaps its child in a handler of
-- SIGCHLD. A step is one action of the parent, of the child or of the kernel.
pub mod Reaped
mod Tests
use linux_programing.Common.{◌≡◌, Bool, true, false, Option, none, some, if◌then◌else◌}

-- The parent before `fork`, before `signal`, before its loop, in its loop, and ended.
pub data Parent : Type 0 where
  p_fork p_signal p_print p_looping p_ended : Parent

-- No child; a child that runs, that has ended, and whose end was waited for.
pub data Child : Type 0 where
  c_none c_running c_zombie c_reaped : Child

-- `handler` is whether `func` or `callback` is set for SIGCHLD, and `pending` whether SIGCHLD waits for it.
-- SIGCHLD is blocked while its handler runs.
pub record State : Type 0 where
  pub parent : Parent
  pub child : Child
  pub handler : Bool
  pub pending : Bool
  pub in_handler : Bool

abbrev pub initial : State
initial = record {
  parent = p_fork;
  child = c_none;
  handler = false;
  pending = false;
  in_handler = false;
}

-- The parent outside the handler; `forked` is the answer of `fork`.
main_at : Parent → (forked : Bool) → State → Option State
main_at p_fork forked s = some (
    if forked
    then record s { parent = p_signal; child = c_running }
    else record s { parent = p_ended })
main_at p_signal forked s = some (record s { parent = p_print; handler = true })
main_at p_print forked s = some (record s { parent = p_looping })
main_at p_looping forked s = some s
main_at p_ended forked s = none

-- The handler, whose `wait` returns when the child has ended or when there is none.
wait_at : Child → State → Option State
wait_at c_running s = none
wait_at c_zombie s = some (record s { child = c_reaped; in_handler = false })
wait_at c_none s = some (record s { in_handler = false })
wait_at c_reaped s = some (record s { in_handler = false })

pub parent_step : (forked : Bool) → State → Option State
unfolding main_at wait_at
parent_step forked s = if s.in_handler then wait_at s.child s else main_at s.parent forked s

-- The child ends: without a handler SIGCHLD is ignored.
ends_at : Child → State → Option State
ends_at c_running s = some (record s { child = c_zombie; pending = s.handler })
ends_at _ s = none

pub child_ends : State → Option State
unfolding ends_at
child_ends s = ends_at s.child s

-- The kernel calls the handler.
pub deliver : State → Option State
deliver s =
    if s.pending
    then (if s.in_handler then none else some (record s { pending = false; in_handler = true }))
    else none

pub data Step (s : State) : State → Type 0 where
  run_parent : {t : State} (forked : Bool) → parent_step forked s ≡ some t → Step s t
  end_child : {t : State} → child_ends s ≡ some t → Step s t
  signalled : {t : State} → deliver s ≡ some t → Step s t

-- A run from one state to another.
pub data Run (s : State) : State → Type 0 where
  here : Run s s
  next : {t u : State} → Run s t → Step t u → Run s u
