-- ===== src/Threads/RelatedPipe/Order.antt =====
-- related_pipe/main.c: what the child prints, and why it does not end.
use mathlib.Core.Path.{subst}
use mathlib.Core.Option.{some-injective}
use linux_programing.Common.{
  ℕ, ◌≡◌, ◌≢◌, refl, sym, ap, ◌∙◌, Bool, true, false, none, some, List, [], ◌++◌, arith,
}
use linux_programing.Threads.RelatedPipe.{
  msg1, msg2, msg3, Parent, p_close_read, p_write1, p_write2, p_write3, p_close_write, p_spinning,
  p_killed, Child, c_reading, c_ended, c_failed, State, write_pipe, parent_step, read_pipe,
  child_step, child_at, run_parent, run_child, Reach, start, next,
}
use linux_programing.Threads.RelatedPipe.Flow.{
  sent, Flows, Reading, write-Flows, read-empty, read-Flows,
}

child-Reading :
    (k : Child) (failed : Bool) (s t : State)
    → s.child ≡ k
    → child_step failed s ≡ some t
    → Reading k s
    → Reading t.child t
unfolding child_step
child-Reading c_reading true s t c e v = ground (arith, c, e)
child-Reading c_reading false s t c e v =
    read-Flows v.left s t c v refl (subst (λ k. child_at k false s ≡ some t) c e)
child-Reading c_ended failed s t c e v = absurd v
child-Reading c_failed failed s t c e v = ground (arith, c, e)

moved : {s t : State} → some s ≡ some t → Flows s → Flows t
moved {s} {t} e f = subst Flows (some-injective s t e) f

-- A move of the parent that leaves the pipe and the child alone.
shifted :
    (p q : Parent) (r w : Bool) (s : State)
    → Flows s
    → s.parent ≡ p
    → sent q ≡ sent p
    → q ≢ p_killed
    → Flows (record s { parent_read = r; parent_write = w; parent = q })
shifted p q r w s f at same goes = record {
  left = f.left;
  held = f.held;
  whole = f.whole;
  order = f.order ∙ (ap sent at ∙ sym same);
  reads = f.reads;
  writes = f.writes;
  alive = goes;
}

parent-Flows :
    (p : Parent) (s t : State) → s.parent ≡ p → parent_step s ≡ some t → Flows s → Flows t
unfolding parent_step
parent-Flows p_close_read s t at e f =
    moved (rw at at e)
      (shifted p_close_read p_write1 false s.parent_write s f at refl λ k. ground (arith, k))
parent-Flows p_write1 s t at e f =
    moved (rw at at e) (write-Flows p_write1 p_write2 msg1 s f at refl refl λ k. ground (arith, k))
parent-Flows p_write2 s t at e f =
    moved (rw at at e) (write-Flows p_write2 p_write3 msg2 s f at refl refl λ k. ground (arith, k))
parent-Flows p_write3 s t at e f =
    moved (rw at at e)
      (write-Flows p_write3 p_close_write msg3 s f at refl refl λ k. ground (arith, k))
parent-Flows p_close_write s t at e f =
    moved (rw at at e)
      (shifted p_close_write p_spinning s.parent_read false s f at refl λ k. ground (arith, k))
parent-Flows p_spinning s t at e f = ground (arith, at, e)
parent-Flows p_killed s t at e f = absurd (f.alive at)

parent-child : (s t : State) → parent_step s ≡ some t → t.child ≡ s.child
unfolding parent_step write_pipe
parent-child s t e = ground (arith, e)

parent-Reading : (k : Child) (s t : State) → parent_step s ≡ some t → Reading k s → Reading k t
parent-Reading c_reading s t e v = parent-Flows s.parent s t refl e v
parent-Reading c_ended s t e v = absurd v
parent-Reading c_failed s t e v = tt

Reach-Reading : {s : State} → Reach s → Reading s.child s
Reach-Reading start = record {
  left = [];
  held = refl;
  whole = tt;
  order = refl;
  reads = refl;
  writes = refl;
  alive = λ e. ground (arith, e);
}
Reach-Reading (next {s} {t} r (run_parent e)) =
    subst (λ k. Reading k t) (sym (parent-child s t e))
      (parent-Reading s.child s t e (Reach-Reading r))
Reach-Reading (next {s} {t} r (run_child failed e)) =
    child-Reading s.child failed s t refl e (Reach-Reading r)

-- The child never comes to the end of its loop. While it reads, it has printed a first part of the
-- messages that the parent has written, in order; and when the pipe is empty its `read` does not
-- return, also when the parent has closed the write end, because it holds that end itself.
pub never_ended :
    {s : State}
    → Reach s
    → (s.child ≢ c_ended)
      × (s.child ≡ c_reading → (left : List (List ℕ)) × (s.printed ++ left ≡ sent s.parent))
      × (s.child ≡ c_reading → s.pipe ≡ [] → child_step false s ≡ none)
unfolding child_step
never_ended {s} r =
    let v = Reach-Reading r in
    (
      λ e. subst (λ k. Reading k s) e v,
      λ e. (let f : Flows s = subst (λ k. Reading k s) e v in (f.left, f.order)),
      λ e empty.
          (let f : Flows s = subst (λ k. Reading k s) e v in
            subst (λ k. child_at k false s ≡ none) (sym e)
              (subst (λ p. read_pipe p s ≡ none) (sym empty) (read-empty s f.writes))),
    )
