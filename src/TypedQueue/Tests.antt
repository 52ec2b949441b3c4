-- ===== src/TypedQueue/Tests.antt =====
-- Producers and consumers at a concrete run.
use linux_programing.Common.{◌≡◌, refl, true, some, none, List, [], ◌∷◌}
use linux_programing.TypedQueue.{
  Message, msgctl, Program, producer, consumer_a, Process, ended, move, System, runs, Reach, start,
  next,
}

abbrev first : Message
first = record { mesg_type = 2; mesg_text = b'a' ∷ [] }

abbrev second : Message
second = record { mesg_type = 1; mesg_text = b'b' ∷ [] }

abbrev programs : List Program
programs = producer ∷ producer ∷ consumer_a ∷ []

-- Consumer A takes the message that was sent second.
abbrev one_taken : System
one_taken = record {
  kernel = record {
    created = 1;
    queue = some (first ∷ []);
    sent = first ∷ second ∷ [];
    received = (1, second) ∷ [];
  };
  processes = ended none ∷ ended none ∷ Process.removing (some 1) (b'b' ∷ []) ∷ [];
}

run : Reach 10 programs one_taken
unfolding move
run =
    let one = next (next start (runs 0 true first refl refl)) (runs 0 true first refl refl) in
    let two = next (next one (runs 1 true second refl refl)) (runs 1 true second refl refl) in
    next (next two (runs 2 true first refl refl)) (runs 2 true first refl refl)

-- The removal loses the message of the other type.
removed_queue : (msgctl (some 1) one_taken.kernel).queue ≡ none
unfolding msgctl
removed_queue = refl
