-- ===== src/Gateway/SensorNode/Loop.antt =====
-- client.c: the loop of a sensor, turn by turn.
use mathlib.Core.List.{append_assoc, append-nil}
use linux_programing.Common.{
  ℕ, zero, suc, ◌+◌, ◌-◌, ◌*◌, ◌≡◌, refl, ◌∙◌, sym, true, List, [], ◌∷◌, ◌++◌, length, map, arith,
}
use linux_programing.Common.Int.{ℤ, pos, negsuc}
use linux_programing.Gateway.Timestamp.{get_timestamp, format_time}
use linux_programing.Gateway.Net.{os_send_tcp}
use linux_programing.Gateway.SensorNode.{
  JsonWriter, Node, Turn, Log, Outcome, sending, message, get_msg, random_temp, note_send,
  client_turn, client_loop, client_main,
}

abbrev pub AllGranted : List Turn → Type 0
AllGranted [] = Unit
AllGranted (t ∷ ts) = ((t.calloc ≡ true) × (t.timestamp_calloc ≡ true)) × AllGranted ts

-- `send` returned an error or nothing.
abbrev failed : ℤ → ℕ
failed (pos zero) = 1
failed (pos (suc n)) = 0
failed (negsuc n) = 1

abbrev pub failures : List Turn → ℕ
failures [] = 0
failures (t ∷ ts) = failed t.sent + failures ts

module _ {Item Real : Type 0} (w : JsonWriter Item Real) (id : ℤ) where
  abbrev pub text_of : Turn → List ℕ
  text_of t = w.print_unformatted (message w (format_time t.now) id (random_temp w t.rand))

  record Sent (n : Node) (log : Log) (ts : List Turn) (o : Outcome) : Type 0 where
    node : Node
    after : Log
    runs : o ≡ sending node after
    texts : after.texts ≡ log.texts ++ map text_of ts
    errors : after.errors ≡ log.errors + failures ts
    blocks : node.blocks ≡ n.blocks + 2 * length ts

  abbrev noted : Turn → Log → Log
  noted t log = record { texts = log.texts ++ text_of t ∷ []; errors = log.errors + failed t.sent }

  note_send_lem :
      (v : ℤ) (log : Log)
      → note_send w (os_send_tcp v) log ≡ record log { errors = log.errors + failed v }
  unfolding note_send os_send_tcp
  note_send_lem (pos zero) log = refl
  note_send_lem (pos (suc n)) log = ground arith
  note_send_lem (negsuc n) log = refl

  client_turn-granted :
      (t : Turn) (n : Node) (log : Log)
      → t.calloc ≡ true
      → t.timestamp_calloc ≡ true
      → client_turn w id t n log
        ≡ sending (record { msg = text_of t; blocks = n.blocks + 2 }) (noted t log)
  unfolding client_turn get_msg get_timestamp
  client_turn-granted t n log e f =
      let more : n.blocks + 1 + 1 + 1 - 1 ≡ n.blocks + 2 = omega arith in
      rw (e, f, note_send_lem t.sent (record log { texts = log.texts ++ text_of t ∷ [] }), more)
        refl

  client_loop-Sent :
      (ts : List Turn) (n : Node) (log : Log)
      → AllGranted ts
      → Sent n log ts (client_loop w id ts n log)
  unfolding client_loop
  client_loop-Sent [] n log g = record {
    node = n;
    after = log;
    runs = refl;
    texts = sym (append-nil log.texts);
    errors = omega arith;
    blocks = omega arith;
  }
  client_loop-Sent (t ∷ ts) n log ((e, f), g) =
      let rest =
        client_loop-Sent ts (record { msg = text_of t; blocks = n.blocks + 2 }) (noted t log) g in
      rw (client_loop, client_turn-granted t n log e f)
        (record {
          node = rest.node;
          after = rest.after;
          runs = rest.runs;
          texts = rest.texts ∙ append_assoc log.texts (text_of t ∷ []) (map text_of ts);
          errors = omega (arith, rest.errors);
          blocks = omega (arith, rest.blocks);
        })

  -- While its allocations are granted, a connected sensor passes one message a turn to `send`, in
  -- order and whether or not an earlier one failed, counts the failures, and has two blocks more
  -- allocated after each turn.
  pub client_main-sends :
      (fd : ℕ) (ts : List Turn)
      → AllGranted ts
      → (n : Node) × (log : Log) × (client_main w (pos fd) true id ts ≡ sending n log)
        × (log.texts ≡ map text_of ts)
        × (log.errors ≡ failures ts)
        × (n.blocks ≡ 1 + 2 * length ts)
  unfolding client_main
  client_main-sends fd ts g =
      let s = client_loop-Sent ts _ _ g in
      (s.node, s.after, s.runs, s.texts, omega (arith, s.errors), s.blocks)
