-- ===== src/TypedQueue.antt =====
-- 10-message-queues/systemV-message-queues: producer.c, consumerA.c and consumerB.c, any number of
-- each, over one key. A step is one system call of one process; what is typed and whether `msgget`
-- succeeds are arguments of the step.
pub mod PerType
mod Tests
use linux_programing.Common.{
  ℕ, ◌+◌, ◌≡◌, Bool, true, false, Option, none, some, List, [], ◌∷◌, ◌++◌, ◌&&◌, ◌==◌, ltb, leb,
  length, get_elem?, set, map, if◌then◌else◌,
}

-- `struct mesg_buffer`; 0 stands for every type that is not positive.
pub record Message : Type 0 where
  pub mesg_type : ℕ
  pub mesg_text : List ℕ

-- The queue of the key, if there is one: it is the one that was created last, and its identifier is
-- how many had been created by then. `sent` and `received` are what was put into this queue and
-- taken from it, the latter with the type asked for.
pub record Kernel : Type 0 where
  pub created : ℕ
  pub queue : Option (List Message)
  pub sent : List Message
  pub received : List (ℕ × Message)

-- `msgget(key, 0666 | IPC_CREAT)`
pub msgget : Kernel → Kernel
msgget k = elim k.queue [
  | none ↦ record { created = k.created + 1; queue = some []; sent = []; received = [] }
  | some messages ↦ k
]

-- The messages behind an identifier; `none` is -1, and so is the identifier of a removed queue.
messages_of : Option ℕ → Kernel → Option (List Message)
messages_of none k = none
messages_of (some msgid) k = if msgid == k.created then k.queue else none

-- `msgsnd` fails without a queue or with a type that is not positive, and waits while the queue is
-- full.
put : (capacity : ℕ) → Message → Option (List Message) → Kernel → Option Kernel
put capacity m none k = some k
put capacity m (some messages) k =
    if ltb 0 m.mesg_type
    then if leb capacity (length messages)
      then none
      else some (record k { queue = some (messages ++ m ∷ []); sent = k.sent ++ m ∷ [] })
    else some k

pub msgsnd : (capacity : ℕ) → (msgid : Option ℕ) → Message → Kernel → Option Kernel
unfolding messages_of put
msgsnd capacity msgid m k = put capacity m (messages_of msgid k) k

-- The first message of a type, and the others.
pub first_of : (type : ℕ) → List Message → Option (Message × List Message)
first_of type [] = none
first_of type (m ∷ messages) =
    let later : Option (Message × List Message) = (elim (first_of type messages) [
      | none ↦ none
      | some (found, rest) ↦ some (found, m ∷ rest)
    ]) in
    if m.mesg_type == type then some (m, messages) else later

-- `msgrcv` fails without a queue, and the text of the global `message` stays empty; it waits while the
-- queue has no message of the type.
get : (type : ℕ) → Option (List Message) → Kernel → Option (List ℕ × Kernel)
unfolding first_of
get type none k = some ([], k)
get type (some messages) k = elim (first_of type messages) [
  | none ↦ none
  | some (m, rest) ↦
      some (m.mesg_text, record k { queue = some rest; received = k.received ++ (type, m) ∷ [] })
]

pub msgrcv : (type : ℕ) → (msgid : Option ℕ) → Kernel → Option (List ℕ × Kernel)
unfolding messages_of get
msgrcv type msgid k = get type (messages_of msgid k) k

-- `msgctl(msgid, IPC_RMID, NULL)`
pub msgctl : (msgid : Option ℕ) → Kernel → Kernel
unfolding messages_of
msgctl msgid k = elim (messages_of msgid k) [ none ↦ k | some messages ↦ record k { queue = none } ]

pub data Program : Type 0 where
  producer consumer_a consumer_b : Program

-- A process before each of its calls, with what it has printed; `none` is the `msgid` -1.
pub data Process : Type 0 where
  starting : Program → Process
  sending : (msgid : Option ℕ) → Process
  receiving : Program → (msgid : Option ℕ) → Process
  removing : (msgid : Option ℕ) → (printed : List ℕ) → Process
  ended : (printed : Option (List ℕ)) → Process

-- The consumers differ in the type they ask for, and only the first removes the queue.
asked : Program → ℕ
asked consumer_a = 1
asked _ = 2

after_receive : Program → Option ℕ → (printed : List ℕ) → Process
after_receive consumer_a msgid printed = removing msgid printed
after_receive _ msgid printed = ended (some printed)

after_get : Program → Option ℕ → Process
after_get producer msgid = sending msgid
after_get p msgid = receiving p msgid

-- `granted` is whether `msgget` succeeds, `m` is what is typed.
pub move :
    (capacity : ℕ) → (granted : Bool) → (m : Message) → Process → Kernel → Option (Process × Kernel)
unfolding asked after_receive after_get msgget msgsnd msgrcv msgctl
move capacity granted m (starting p) k =
    if granted
    then some (after_get p (some (msgget k).created), msgget k)
    else some (after_get p none, k)
move capacity granted m (sending msgid) k = elim (msgsnd capacity msgid m k) [
  | none ↦ none
  | some k' ↦ some (ended none, k')
]
move capacity granted m (receiving p msgid) k = elim (msgrcv (asked p) msgid k) [
  | none ↦ none
  | some (printed, k') ↦ some (after_receive p msgid printed, k')
]
move capacity granted m (removing msgid printed) k = some (ended (some printed), msgctl msgid k)
move capacity granted m (ended printed) k = none

pub record System : Type 0 where
  pub kernel : Kernel
  pub processes : List Process

pub data Step (capacity : ℕ) (s : System) : System → Type 0 where
  runs :
      (i : ℕ) (granted : Bool) (m : Message) {p p' : Process} {k : Kernel}
      → get_elem? s.processes i ≡ some p
      → move capacity granted m p s.kernel ≡ some (p', k)
      → Step capacity s (record { kernel = k; processes = set s.processes i p' })

abbrev pub initial : List Program → System
initial programs = record {
  kernel = record { created = 0; queue = none; sent = []; received = [] };
  processes = map starting programs;
}

pub data Reach (capacity : ℕ) (programs : List Program) : System → Type 0 where
  start : Reach capacity programs (initial programs)
  next : {s t : System} → Reach capacity programs s → Step capacity s t → Reach capacity programs t
