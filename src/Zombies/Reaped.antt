-- ===== src/Zombies/Reaped.antt =====
-- safe-fork/main.c and zombie/ass2.c: when the child is reaped.
use linux_programing.Common.{
  ◌≡◌, ◌≢◌, ◌⊎◌, inl, inr, refl, Bool, true, false, some, arith, Bool-cases, if◌then◌else◌,
}
use linux_programing.Zombies.{
  p_fork, c_none, c_running, c_zombie, c_reaped, State, initial, parent_step, child_ends, deliver,
  run_parent, end_child, signalled, Run, here, next,
}

-- Before the child has ended, nothing of a signal is under way.
record Sane (s : State) : Type 0 where
  forked : s.parent ≡ p_fork → s.child ≡ c_none
  none_sent : s.child ≡ c_none → (s.pending ≡ false) × (s.in_handler ≡ false)
  running : s.child ≡ c_running → (s.pending ≡ false) × (s.in_handler ≡ false)

parent-Sane : (forked : Bool) (s t : State) → parent_step forked s ≡ some t → Sane s → Sane t
unfolding parent_step
parent-Sane forked s t e v = ground (arith, e, v)

child-Sane : (s t : State) → child_ends s ≡ some t → Sane s → Sane t
unfolding child_ends
child-Sane s t e v = ground (arith, e, v)

deliver-Sane : (s t : State) → deliver s ≡ some t → Sane s → Sane t
unfolding deliver
deliver-Sane s t e v = ground (arith, e, v)

Run-Sane : {s : State} → Run initial s → Sane s
Run-Sane here = record {
  forked = λ e. refl;
  none_sent = λ e. (refl, refl);
  running = λ e. (refl, refl);
}
Run-Sane (next {t} {u} r (run_parent forked e)) = parent-Sane forked t u e (Run-Sane r)
Run-Sane (next {t} {u} r (end_child e)) = child-Sane t u e (Run-Sane r)
Run-Sane (next {t} {u} r (signalled e)) = deliver-Sane t u e (Run-Sane r)

-- The parent is told of the end of the child.
record Told (s : State) : Type 0 where
  forked : s.parent ≢ p_fork
  gone : (s.child ≡ c_zombie) ⊎ (s.child ≡ c_reaped)
  zombie : s.child ≡ c_zombie → (s.pending ≡ true) ⊎ (s.in_handler ≡ true)

parent-Told : (forked : Bool) (s t : State) → parent_step forked s ≡ some t → Told s → Told t
unfolding parent_step
parent-Told forked s t e v = ground (arith, e, v)

child-Told : (s t : State) → child_ends s ≡ some t → Told s → Told t
unfolding child_ends
child-Told s t e v = ground (arith, e, v)

deliver-Told : (s t : State) → deliver s ≡ some t → Told s → Told t
unfolding deliver
deliver-Told s t e v = ground (arith, e, v)

-- The child has ended before the handler was set.
record Missed (s : State) : Type 0 where
  forked : s.parent ≢ p_fork
  zombie : s.child ≡ c_zombie
  pending : s.pending ≡ false
  in_handler : s.in_handler ≡ false

parent-Missed : (forked : Bool) (s t : State) → parent_step forked s ≡ some t → Missed s → Missed t
unfolding parent_step
parent-Missed forked s t e v = ground (arith, e, v)

child-Missed : (s t : State) → child_ends s ≡ some t → Missed s → Missed t
unfolding child_ends
child-Missed s t e v = ground (arith, e, v)

deliver-Missed : (s t : State) → deliver s ≡ some t → Missed s → Missed t
unfolding deliver
deliver-Missed s t e v = ground (arith, e, v)

Run-Told : {s t : State} → Told s → Run s t → Told t
Run-Told v here = v
Run-Told v (next {t} {u} r (run_parent forked e)) = parent-Told forked t u e (Run-Told v r)
Run-Told v (next {t} {u} r (end_child e)) = child-Told t u e (Run-Told v r)
Run-Told v (next {t} {u} r (signalled e)) = deliver-Told t u e (Run-Told v r)

Run-Missed : {s t : State} → Missed s → Run s t → Missed t
Run-Missed v here = v
Run-Missed v (next {t} {u} r (run_parent forked e)) = parent-Missed forked t u e (Run-Missed v r)
Run-Missed v (next {t} {u} r (end_child e)) = child-Missed t u e (Run-Missed v r)
Run-Missed v (next {t} {u} r (signalled e)) = deliver-Missed t u e (Run-Missed v r)

ended-Told : (s t : State) → Sane s → s.handler ≡ true → child_ends s ≡ some t → Told t
unfolding child_ends
ended-Told s t v h e = ground (arith, v, h, e)

ended-Missed : (s t : State) → Sane s → s.handler ≡ false → child_ends s ≡ some t → Missed t
unfolding child_ends
ended-Missed s t v h e = ground (arith, v, h, e)

-- Once the child has ended and nothing of a signal is under way any more, the child is reaped when the
-- handler was set before its end, and is a zombie when it was not: no later step of the parent reaps it.
pub child_fate :
    {s ended t : State}
    → Run initial s
    → child_ends s ≡ some ended
    → Run ended t
    → t.pending ≡ false
    → t.in_handler ≡ false
    → t.child ≡ (if s.handler then c_reaped else c_zombie)
child_fate {s} {ended} {t} r e later quiet back = elim (Bool-cases s.handler) [
  | inl h ↦
      let v = Run-Told (ended-Told s ended (Run-Sane r) h e) later in
      ground (arith, v, h, quiet, back)
  | inr h ↦
      let v = Run-Missed (ended-Missed s ended (Run-Sane r) h e) later in
      ground (arith, v.zombie, h)
]
