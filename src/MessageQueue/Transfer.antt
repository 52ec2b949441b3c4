-- ===== src/MessageQueue/Transfer.antt =====
-- 10-message-queues/client-server: what the client makes of what the server sends.
use linux_programing.Common.{
  ℕ, ◌+◌, ◌<◌, ◌≡◌, refl, Bool, true, false, some, List, [], ◌∷◌, ◌++◌, map, ltb, if◌then◌else◌,
  length, length-append, arith,
}
use linux_programing.Common.Int.{pos, ◌+ℤ◌}
use linux_programing.MessageQueue.{
  resp_mq_data, resp_mq_end, ResponseMsg, Round, send_data, append_last, serve_request,
  couldnt_open, failed, finished, waiting, receive_data, client_main,
}

-- The chunks that the server delivers: those before the end of the file, an error of `read`, or
-- the first message that cannot be sent.
unfoldable pub delivered : List Round → List (List ℕ)
delivered [] = []
delivered (r ∷ rounds) =
    let later = delivered rounds in
    if ltb 0 (length r.chunk) then if r.sent then r.chunk ∷ later else [] else []

unfoldable pub total : List (List ℕ) → ℕ
total [] = 0
total (c ∷ cs) = length c + total cs

abbrev end_of_file : ResponseMsg
end_of_file = record { mtype = resp_mq_end; body = [] }

to_messages : (sent : Bool) → List (List ℕ) → List ResponseMsg
to_messages sent [] = if sent then end_of_file ∷ [] else []
to_messages sent (c ∷ cs) = record { mtype = resp_mq_data; body = c } ∷ to_messages sent cs

served-messages :
    (sent : Bool) (rounds : List Round)
    → append_last sent end_of_file (send_data rounds) ≡ to_messages sent (delivered rounds)
unfolding send_data append_last delivered to_messages
served-messages sent [] = refl
served-messages sent (r ∷ rounds) = ground (arith, served-messages sent rounds)

pos-add : (a b : ℕ) → pos a +ℤ pos b ≡ pos (a + b)
unfolding ◌+ℤ◌
pos-add a b = ground arith

receive_data-messages :
    (sent : Bool) (cs : List (List ℕ)) (tot num : ℕ)
    → receive_data resp_mq_data (pos tot) num (map some (to_messages sent cs))
      ≡ (if sent then finished (pos (tot + total cs)) (num + length cs + 1) else waiting)
unfolding receive_data to_messages total
receive_data-messages true [] tot num = rw (pos-add tot 0) (ground arith)
receive_data-messages false [] tot num = refl
receive_data-messages sent (c ∷ cs) tot num =
    rw (pos-add tot (length c), receive_data-messages sent cs (tot + length c) (num + 1))
      (ground arith)

client-messages :
    (sent : Bool) (cs : List (List ℕ))
    → client_main (map some (to_messages sent cs))
      ≡ (if sent then finished (pos (total cs)) (length cs + 1) else waiting)
unfolding client_main receive_data to_messages total
client-messages true [] = refl
client-messages false [] = refl
client-messages sent (c ∷ cs) = rw (receive_data-messages sent cs (length c) 1) (ground arith)

-- Of all that the server sends for one request the client reports as many bytes as were delivered, and
-- one message more than the chunks delivered, or the server's refusal; it does so also when a message of
-- the file could not be sent, and the file is cut short. When the last message, which ends the file or
-- refuses it, cannot be sent, the client waits and reports nothing.
pub client-serve_request :
    (opened : Bool) (rounds : List Round) (sent : Bool)
    → client_main (map some (serve_request opened rounds sent)) ≡ (
        if sent
        then if opened
          then finished (pos (total (delivered rounds))) (length (delivered rounds) + 1)
          else failed couldnt_open
        else waiting)
unfolding serve_request append_last client_main
client-serve_request true rounds sent =
    rw (served-messages sent rounds) (client-messages sent (delivered rounds))
client-serve_request false rounds true = refl
client-serve_request false rounds false = refl

-- Chunks as `read` returns them for a file, and every message sent.
abbrev pub Complete : List Round → Type 0
Complete [] = Unit
Complete (r ∷ rounds) = (0 < length r.chunk) × (r.sent ≡ true) × Complete rounds

abbrev pub content : List Round → List ℕ
content [] = []
content (r ∷ rounds) = r.chunk ++ content rounds

delivered-Complete :
    (rounds : List Round) → Complete rounds → total (delivered rounds) ≡ length (content rounds)
unfolding delivered total
delivered-Complete [] c = refl
delivered-Complete (r ∷ rounds) c =
    ground (arith, delivered-Complete rounds c.2, length-append r.chunk (content rounds))

length-delivered :
    (rounds : List Round) → Complete rounds → length (delivered rounds) ≡ length rounds
unfolding delivered
length-delivered [] c = refl
length-delivered (r ∷ rounds) c = ground (arith, length-delivered rounds c.2)

-- When no chunk is empty and every message is sent, the last included, the client reports the size of the file, and
-- one message more than the chunks.
pub client-Complete :
    (rounds : List Round)
    → Complete rounds
    → client_main (map some (serve_request true rounds true))
      ≡ finished (pos (length (content rounds))) (length rounds + 1)
client-Complete rounds c =
    rw (
      client-serve_request true rounds true,
      delivered-Complete rounds c,
      length-delivered rounds c,
    )
