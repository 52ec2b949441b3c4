-- ===== src/Tests/MessageQueue.antt =====
-- The message queue at concrete inputs.
use linux_programing.Common.{◌≡◌, true, false, some, List, [], ◌∷◌, map}
use linux_programing.Common.Int.{pos}
use linux_programing.MessageQueue.{Round, serve_request, finished, client_main}
use linux_programing.MessageQueue.Transfer.{client-serve_request, delivered, total}

-- The second message is not sent.
abbrev cut_short : List Round
cut_short =
    record { chunk = 1 ∷ 2 ∷ []; sent = true }
    ∷ record { chunk = 3 ∷ []; sent = false }
    ∷ record { chunk = []; sent = true }
    ∷ []

client-serve_request_example :
    client_main (map some (serve_request true cut_short true)) ≡ finished (pos 2) 2
unfolding delivered total
client-serve_request_example = client-serve_request true cut_short true
