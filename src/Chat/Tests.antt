-- ===== src/Chat/Tests.antt =====
-- A chat at concrete lines.
use linux_programing.Common.{ℕ, ◌≡◌, refl, true, some, List, [], ◌∷◌, ◌++◌, map, arith}
use linux_programing.Chat.{closed, server_chat, fgets, fill, says_exit}
use linux_programing.Chat.Dialogue.{
  Pair, AllPairs, exchange_of, reply_of, asked, asked_of, client_dialogue,
  client_dialogue-server_chat,
}
use linux_programing.Chat.Conversation.{typed, whole_turn, turn_of, line_of}

abbrev bye : List ℕ
bye = b'e' ∷ b'x' ∷ b'i' ∷ b't' ∷ []

bye-says : says_exit (fgets (some bye)) ≡ true
unfolding fgets fill says_exit
bye-says = refl

abbrev pairs : List Pair
pairs = record { line = b'h' ∷ b'i' ∷ []; reply = b'h' ∷ b'o' ∷ [] } ∷ []

pairs-all : AllPairs pairs
unfolding fgets fill says_exit
pairs-all = (
  (
    record {
      text = (ground arith, (ground arith, tt));
      short = omega arith;
      stays = refl;
      answered = refl;
      goes_on = refl;
    },
    (ground arith, (ground arith, tt)),
    omega arith,
  ),
  tt,
)

client_dialogue-server_chat_example :
    (up : List ℕ) × (down : List ℕ) × (client_dialogue
        (map asked_of pairs ++ asked bye ∷ [])
        down
        []
        []
      ≡ (closed, up, map reply_of pairs))
    × (server_chat (map turn_of (map exchange_of pairs) ++ whole_turn (typed []) ∷ []) up [] []
        ≡ (closed, map line_of (map exchange_of pairs), down))
client_dialogue-server_chat_example =
    client_dialogue-server_chat pairs bye (typed []) pairs-all (omega arith) bye-says
