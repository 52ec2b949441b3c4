-- ===== src/TypedQueue/PerType.antt =====
-- 10-message-queues/systemV-message-queues: each type of message is a queue of its own.
use mathlib.Core.List.{append_assoc, append-nil}
use linux_programing.Common.{
  ℕ, ◌≡◌, refl, Bool, Option, none, some, List, [], ◌∷◌, ◌++◌, ◌==◌, if◌then◌else◌, Option-cases,
  inl, inr, arith,
}
use linux_programing.TypedQueue.{
  Message, Kernel, msgget, messages_of, msgsnd, first_of, msgrcv, msgctl, Program, Process,
  starting, sending, receiving, removing, ended, asked, move, System, runs, Reach, start, next,
}

-- The messages of one type, in order.
pub of_type : (type : ℕ) → List Message → List Message
of_type type [] = []
of_type type (m ∷ messages) =
    if m.mesg_type == type then m ∷ of_type type messages else of_type type messages

-- The messages that were taken by a call that asked for this type.
pub taken : (type : ℕ) → List (ℕ × Message) → List Message
taken type [] = []
taken type ((asked, m) ∷ received) =
    if asked == type then m ∷ taken type received else taken type received

of_type-append :
    (type : ℕ) (xs ys : List Message) → of_type type (xs ++ ys) ≡ of_type type xs ++ of_type type ys
unfolding of_type
of_type-append type [] ys = refl
of_type-append type (m ∷ xs) ys = ground (arith, of_type-append type xs ys)

taken-append :
    (type : ℕ) (xs ys : List (ℕ × Message)) → taken type (xs ++ ys) ≡ taken type xs ++ taken type ys
unfolding taken
taken-append type [] ys = refl
taken-append type ((asked, m) ∷ xs) ys = ground (arith, taken-append type xs ys)

taken-one :
    (type asked : ℕ) (m : Message)
    → taken type ((asked, m) ∷ []) ≡ (if asked == type then m ∷ [] else [])
unfolding taken
taken-one type asked m = refl

of_type-first_of :
    (type asked : ℕ) (messages rest : List Message) (m : Message)
    → first_of asked messages ≡ some (m, rest)
    → of_type type messages ≡ (if asked == type then m ∷ of_type type rest else of_type type rest)
unfolding first_of of_type
of_type-first_of type asked [] rest m e = cc
of_type-first_of type asked (x ∷ messages) rest m e =
    elim (Option-cases (first_of asked messages)) [
      | inl q ↦ ground (arith, q, e)
      | inr ((found, others), q) ↦
          ground (arith, q, e, of_type-first_of type asked messages others found q)
    ]

-- What was taken of a type, and then what waits, is what was sent of it.
abbrev PerType : (type : ℕ) → Option (List Message) → Kernel → Type 0
PerType type none k = Unit
PerType type (some messages) k =
    taken type k.received ++ of_type type messages ≡ of_type type k.sent

abbrev AllTypes : Kernel → Type 0
AllTypes k = (type : ℕ) → PerType type k.queue k

msgget-PerType :
    (type : ℕ) (k : Kernel) → PerType type k.queue k → PerType type (msgget k).queue (msgget k)
unfolding msgget taken of_type
msgget-PerType type k h = elim (Option-cases k.queue) [
  | inl e ↦ rw e refl
  | inr (messages, e) ↦ ground (arith, e, h)
]

msgctl-PerType :
    (type : ℕ) (msgid : Option ℕ) (k : Kernel)
    → PerType type k.queue k
    → PerType type (msgctl msgid k).queue (msgctl msgid k)
unfolding msgctl
msgctl-PerType type msgid k h = elim (Option-cases (messages_of msgid k)) [
  | inl e ↦ rw (PerType, e) (ground (arith, e, h))
  | inr (messages, e) ↦ ground (arith, e, h)
]

-- An identifier leads to no messages but those of the queue.
messages_of-queue :
    (msgid : Option ℕ) (k : Kernel) (messages : List Message)
    → messages_of msgid k ≡ some messages
    → k.queue ≡ some messages
unfolding messages_of
messages_of-queue msgid k messages e = ground (arith, e)

put-PerType :
    (type capacity : ℕ) (msgid : Option ℕ) (m : Message) (k k' : Kernel)
    → msgsnd capacity msgid m k ≡ some k'
    → PerType type k.queue k
    → PerType type k'.queue k'
unfolding msgsnd
put-PerType type capacity msgid m k k' e h = elim (Option-cases (messages_of msgid k)) [
  | inl q ↦ ground (arith, q, e, h)
  | inr (messages, q) ↦ ground (
    arith,
    q,
    e,
    h,
    messages_of-queue msgid k messages q,
    of_type-append type messages (m ∷ []),
    of_type-append type k.sent (m ∷ []),
    append_assoc (taken type k.received) (of_type type messages) (of_type type (m ∷ [])),
  )
]

get-PerType :
    (type asked : ℕ) (msgid : Option ℕ) (text : List ℕ) (k k' : Kernel)
    → msgrcv asked msgid k ≡ some (text, k')
    → PerType type k.queue k
    → PerType type k'.queue k'
unfolding msgrcv
get-PerType type asked msgid text k k' e h = elim (Option-cases (messages_of msgid k)) [
  | inl q ↦ ground (arith, q, e, h)
  | inr (messages, q) ↦ elim (Option-cases (first_of asked messages)) [
    | inl none_left ↦ ground (arith, q, none_left, e)
    | inr ((m, rest), found) ↦ ground (
      arith,
      q,
      found,
      e,
      h,
      messages_of-queue msgid k messages q,
      of_type-first_of type asked messages rest m found,
      taken-append type k.received ((asked, m) ∷ []),
      append_assoc (taken type k.received) (m ∷ []) (of_type type rest),
      taken-one type asked m,
      append-nil (taken type k.received),
    )
  ]
]

move-PerType :
    (type capacity : ℕ) (granted : Bool) (m : Message) (p p' : Process) (k k' : Kernel)
    → move capacity granted m p k ≡ some (p', k')
    → PerType type k.queue k
    → PerType type k'.queue k'
unfolding move
move-PerType type capacity granted m (starting p) p' k k' e h =
    ground (arith, e, h, msgget-PerType type k h)
move-PerType type capacity granted m (sending msgid) p' k k' e h =
    elim (Option-cases (msgsnd capacity msgid m k)) [
      | inl q ↦ ground (arith, q, e)
      | inr (k2, q) ↦ ground (arith, q, e, put-PerType type capacity msgid m k k2 q h)
    ]
move-PerType type capacity granted m (receiving p msgid) p' k k' e h =
    elim (Option-cases (msgrcv (asked p) msgid k)) [
      | inl q ↦ ground (arith, q, e)
      | inr ((text, k2), q) ↦ ground (arith, q, e, get-PerType type (asked p) msgid text k k2 q h)
    ]
move-PerType type capacity granted m (removing msgid printed) p' k k' e h =
    ground (arith, e, msgctl-PerType type msgid k h)
move-PerType type capacity granted m (ended printed) p' k k' e h = ground (arith, e)

Reach-PerType :
    (type capacity : ℕ) {programs : List Program} {s : System}
    → Reach capacity programs s
    → PerType type s.kernel.queue s.kernel
Reach-PerType type capacity start = tt
Reach-PerType type capacity (next {s} r (runs i granted m {p} {p'} {k} at e)) =
    move-PerType type capacity granted m p p' s.kernel k e (Reach-PerType type capacity r)

-- However the processes interleave, and for each type: what the calls that asked for the type have taken
-- from the queue are the first of its messages that were sent to this queue, in the order of the
-- sending, and the messages of the type that wait in it are the others, in order.
pub taken-of_type :
    (type capacity : ℕ) {programs : List Program} {s : System} {messages : List Message}
    → Reach capacity programs s
    → s.kernel.queue ≡ some messages
    → taken type s.kernel.received ++ of_type type messages ≡ of_type type s.kernel.sent
taken-of_type type capacity {s} r e = let h = Reach-PerType type capacity r in ground (arith, h, e)
