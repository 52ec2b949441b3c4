-- ===== src/Threads/RelatedPipe/Flow.antt =====
-- related_pipe/main.c: what the pipe holds while the child reads.
use mathlib.Core.List.{append_assoc, append-nil}
use mathlib.Core.Path.{subst}
use mathlib.Core.Option.{some-injective, none-ne-some}
use linux_programing.Common.{
  ℕ, ◌≡◌, ◌≢◌, refl, sym, ap, ◌∙◌, true, none, some, List, [], ◌∷◌, ◌++◌, arith, length,
  take-append, drop-append, ◌||◌,
}
use linux_programing.Threads.RelatedPipe.{
  msg_size, msg1, msg2, msg3, Parent, p_close_read, p_write1, p_write2, p_write3, p_killed, Child,
  c_reading, c_ended, c_failed, State, write_pipe, read_pipe,
}

-- The messages that the parent has written.
abbrev pub sent : Parent → List (List ℕ)
sent p_close_read = []
sent p_write1 = []
sent p_write2 = msg1 ∷ []
sent p_write3 = msg1 ∷ msg2 ∷ []
sent p_killed = []
sent _ = msg1 ∷ msg2 ∷ msg3 ∷ []

abbrev pub flatten : List (List ℕ) → List ℕ
flatten [] = []
flatten (m ∷ ms) = m ++ flatten ms

abbrev pub AllWhole : List (List ℕ) → Type 0
AllWhole [] = Unit
AllWhole (m ∷ ms) = (length m ≡ 16) × AllWhole ms

-- While the child reads, it has both ends open, and the pipe holds the messages not yet printed.
pub record Flows (s : State) : Type 0 where
  pub left : List (List ℕ)
  pub held : s.pipe ≡ flatten left
  pub whole : AllWhole left
  pub order : s.printed ++ left ≡ sent s.parent
  pub reads : s.child_read ≡ true
  pub writes : s.child_write ≡ true
  pub alive : s.parent ≢ p_killed

abbrev pub Reading : Child → State → Type 0
Reading c_reading s = Flows s
Reading c_ended s = ⊥
Reading c_failed s = Unit

AllWhole-append :
    (ms : List (List ℕ)) (m : List ℕ) → AllWhole ms → length m ≡ 16 → AllWhole (ms ++ m ∷ [])
AllWhole-append [] m all e = (e, tt)
AllWhole-append (x ∷ ms) m (w, all) e = (w, AllWhole-append ms m all e)

flatten-append : (ms : List (List ℕ)) (m : List ℕ) → flatten (ms ++ m ∷ []) ≡ flatten ms ++ m
flatten-append [] m = append-nil m
flatten-append (x ∷ ms) m =
    ap (λ l. x ++ l) (flatten-append ms m) ∙ sym (append_assoc x (flatten ms) m)

-- A message written while the child reads.
pub write-Flows :
    (p q : Parent) (m : List ℕ) (s : State)
    → Flows s
    → s.parent ≡ p
    → length m ≡ 16
    → sent q ≡ sent p ++ m ∷ []
    → q ≢ p_killed
    → Flows (write_pipe m q s)
unfolding write_pipe
write-Flows p q m s f at full grows goes =
    let open_end : (s.parent_read || s.child_read) ≡ true = ground (arith, f.reads) in
    rw open_end (record {
      left = f.left ++ m ∷ [];
      held = ap (λ l. l ++ m) f.held ∙ sym (flatten-append f.left m);
      whole = AllWhole-append f.left m f.whole full;
      order =
          sym (append_assoc s.printed f.left (m ∷ []))
          ∙ (ap (λ l. l ++ m ∷ []) (f.order ∙ ap sent at) ∙ sym grows);
      reads = f.reads;
      writes = f.writes;
      alive = goes;
    })

-- A read of the first message, and of an empty pipe.
read-first :
    (m : List ℕ) (ms : List (List ℕ)) (s : State)
    → length m ≡ 16
    → read_pipe (m ++ flatten ms) s
      ≡ some (record s { pipe = flatten ms; printed = s.printed ++ m ∷ [] })
unfolding read_pipe
read-first [] ms s e = absurd (omega (arith, e))
read-first (x ∷ m) ms s e =
    rw
      (
        drop-append (x ∷ m) (flatten ms) msg_size (sym e),
        take-append (x ∷ m) (flatten ms) msg_size (sym e),
      )
      refl

pub read-empty : (s : State) → s.child_write ≡ true → read_pipe [] s ≡ none
unfolding read_pipe
read-empty s e = ground (arith, e)

pub read-Flows :
    (left : List (List ℕ)) (s t : State)
    → s.child ≡ c_reading
    → (f : Flows s) → f.left ≡ left
    → read_pipe s.pipe s ≡ some t
    → Reading t.child t
read-Flows [] s t c f l e = absurd (
    none-ne-some t
      (sym (read-empty s f.writes) ∙ (ap (λ p. read_pipe p s) (sym (f.held ∙ ap flatten l)) ∙ e)))
read-Flows (m ∷ ms) s t c f l e =
    let whole : AllWhole (m ∷ ms) = subst AllWhole l f.whole in
    let after : State = record s { pipe = flatten ms; printed = s.printed ++ m ∷ [] } in
    let flows : Flows after = record {
      left = ms;
      held = refl;
      whole = whole.1;
      order = append_assoc s.printed (m ∷ []) ms ∙ (ap (λ k. s.printed ++ k) (sym l) ∙ f.order);
      reads = f.reads;
      writes = f.writes;
      alive = f.alive;
    } in
    let same : after ≡ t = some-injective _ _ (
      sym (read-first m ms s whole.0)
      ∙ (ap (λ p. read_pipe p s) (sym (f.held ∙ ap flatten l)) ∙ e)) in
    subst (λ u. Reading u.child u) same (subst (λ k. Reading k after) (sym c) flows)
