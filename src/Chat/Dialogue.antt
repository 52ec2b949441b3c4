-- ===== src/Chat/Dialogue.antt =====
-- BTVN/06-socket/ipv4-stream/stream_client.c: the client that also reads the responses, over the streams
-- of both directions. The `chat_func` of BTVN/06-socket/ipv4-stream/stream_server.c is that of
-- 06-socket/ipv4_stream/stream_server.c.
use mathlib.Core.List.{append_assoc, append-nil}
use linux_programing.Common.{
  ℕ, ◌<◌, ◌≡◌, refl, sym, true, Option, none, some, List, [], ◌∷◌, ◌++◌, map, length, take, drop,
  take-append, drop-append, if◌then◌else◌,
}
use linux_programing.Chat.{
  fill, fgets, says_exit, c_string, Status, open_socket, closed, failed, overread, Typed,
  server_chat,
}
use linux_programing.Chat.Conversation.{
  Exchange, NoZero, IsExchange, AllExchanges, typed, whole_turn, turn_of, line_of, responses,
  blocks, length-fgets, fill-whole, c_string-fgets, server_chat-closed,
}

-- One turn at the client: the line typed, and how much `read` returns, `none` for an error.
pub record Asked : Type 0 where
  pub typed : Typed
  pub numb_read : Option ℕ

-- `chat_func` of the client, over the bytes that come from the server, with those that it has sent and the
-- messages it has printed.
pub client_dialogue :
    List Asked → (down up : List ℕ) → (printed : List (List ℕ)) → Status × List ℕ × List (List ℕ)
client_dialogue [] down up printed = (open_socket, up, printed)
client_dialogue (t ∷ ts) down up printed =
    let sendbuff = fgets t.typed.line in
    let answered : Status × List ℕ × List (List ℕ) = (elim t.numb_read [
      | none ↦ (failed, up ++ sendbuff, printed)
      | some n ↦
          let recvbuff = fill (take n down) in
          if says_exit recvbuff
          then (closed, up ++ sendbuff, printed)
          else (elim (c_string recvbuff) [
            | none ↦ (overread, up ++ sendbuff, printed)
            | some text ↦ client_dialogue ts (drop n down) (up ++ sendbuff) (printed ++ text ∷ [])
          ])
    ]) in
    if t.typed.written
    then if says_exit sendbuff then (closed, up ++ sendbuff, printed) else answered
    else (failed, up, printed)

-- A line and the line that answers it.
pub record Pair : Type 0 where
  pub line : List ℕ
  pub reply : List ℕ

abbrev pub exchange_of : Pair → Exchange
exchange_of p = record { line = p.line; response = typed p.reply }

abbrev pub reply_of : Pair → List ℕ
reply_of p = p.reply

abbrev pub asked : List ℕ → Asked
asked line = record { typed = typed line; numb_read = some 256 }

abbrev pub asked_of : Pair → Asked
asked_of p = asked p.line

-- Both lines fit the buffers, have no NUL, and are not taken for "exit".
abbrev pub AllPairs : List Pair → Type 0
AllPairs [] = Unit
AllPairs (p ∷ ps) =
    (IsExchange (exchange_of p) × NoZero p.reply × (length p.reply < 256)) × AllPairs ps

AllPairs-exchanges : (ps : List Pair) → AllPairs ps → AllExchanges (map exchange_of ps)
AllPairs-exchanges [] all = tt
AllPairs-exchanges (p ∷ ps) (v, all) = (v.0, AllPairs-exchanges ps all)

client_dialogue-closed :
    (ps : List Pair) (bye up : List ℕ) (printed : List (List ℕ))
    → AllPairs ps
    → says_exit (fgets (some bye)) ≡ true
    → client_dialogue
        (map asked_of ps ++ asked bye ∷ [])
        (responses (map exchange_of ps))
        up
        printed
      ≡ (closed, up ++ blocks (map exchange_of ps) bye, printed ++ map reply_of ps)
unfolding client_dialogue
client_dialogue-closed [] bye up printed all says =
    rw (client_dialogue, says, append-nil printed) refl
client_dialogue-closed (p ∷ ps) bye up printed ((v, nz, short), all) says =
    let block : List ℕ = fgets (some p.reply) in
    let full = length-fgets p.reply short in
    let rest : List ℕ = responses (map exchange_of ps) in
    rw
      (
        client_dialogue,
        v.stays,
        take-append block rest 256 (sym full),
        fill-whole block full,
        v.goes_on,
        c_string-fgets p.reply nz,
        drop-append block rest 256 (sym full),
        client_dialogue-closed ps bye (up ++ fgets (some p.line)) (printed ++ p.reply ∷ []) all
            says,
        append_assoc up (fgets (some p.line)) (blocks (map exchange_of ps) bye),
        append_assoc printed (p.reply ∷ []) (map reply_of ps),
      )
      refl

-- When both programs run on one connection, each of the lines typed at the client is printed by the
-- server and each of the lines typed at the server by the client, in order, until a line of the client
-- is taken for "exit", and then both close their sockets. All lines have less than 256 bytes and no
-- NUL, and none but that one is taken for "exit"; every read returns 256 bytes, and the writes succeed.
pub client_dialogue-server_chat :
    (ps : List Pair) (bye : List ℕ) (last : Typed)
    → AllPairs ps
    → length bye < 256
    → says_exit (fgets (some bye)) ≡ true
    → (up : List ℕ) × (down : List ℕ) × (client_dialogue
          (map asked_of ps ++ asked bye ∷ [])
          down
          []
          []
        ≡ (closed, up, map reply_of ps))
      × (server_chat (map turn_of (map exchange_of ps) ++ whole_turn last ∷ []) up [] []
          ≡ (closed, map line_of (map exchange_of ps), down))
client_dialogue-server_chat ps bye last all short says = (
  blocks (map exchange_of ps) bye,
  responses (map exchange_of ps),
  client_dialogue-closed ps bye [] [] all says,
  server_chat-closed (map exchange_of ps) bye last [] [] (AllPairs-exchanges ps all) short says,
)
