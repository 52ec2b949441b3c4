-- ===== src/Chat/Conversation.antt =====
-- stream_client.c and stream_server.c: the messages of one side as the other prints them.
use mathlib.Core.List.{append_assoc, append-nil}
use linux_programing.Common.{
  ℕ, ◌-◌, ◌<◌, ◌≡◌, ◌≢◌, refl, ap, ◌∙◌, sym, true, false, some, List, [], ◌∷◌, ◌++◌, map, length,
  take, replicate, arith, length-append, length-replicate, take-append, drop-append,
}
use linux_programing.Chat.{
  buff_size, fill, fgets, says_exit, c_string, closed, Typed, client_chat, Turn, server_chat,
}

-- A line and the response to it.
pub record Exchange : Type 0 where
  pub line : List ℕ
  pub response : Typed

abbrev pub NoZero : List ℕ → Type 0
NoZero [] = Unit
NoZero (c ∷ text) = (c ≢ 0) × NoZero text

-- A line fits the buffer and is not taken for "exit", nor is its response.
pub record IsExchange (x : Exchange) : Type 0 where
  pub text : NoZero x.line
  pub short : length x.line < 256
  pub stays : says_exit (fgets (some x.line)) ≡ false
  pub answered : x.response.written ≡ true
  pub goes_on : says_exit (fgets x.response.line) ≡ false

abbrev pub AllExchanges : List Exchange → Type 0
AllExchanges [] = Unit
AllExchanges (x ∷ xs) = IsExchange x × AllExchanges xs

abbrev pub typed : List ℕ → Typed
typed line = record { line = some line; written = true }

abbrev pub typed_of : Exchange → Typed
typed_of x = typed x.line

abbrev pub whole_turn : Typed → Turn
whole_turn r = record { numb_read = some 256; response = r }

abbrev pub turn_of : Exchange → Turn
turn_of x = whole_turn x.response

abbrev pub line_of : Exchange → List ℕ
line_of x = x.line

pub length-fgets : (line : List ℕ) → length line < 256 → length (fgets (some line)) ≡ 256
unfolding fgets fill
length-fgets line h = omega (
  arith,
  h,
  length-append line (0 ∷ []),
  length-append (line ++ 0 ∷ []) (replicate (buff_size - length (line ++ 0 ∷ [])) b'0'),
  length-replicate {A = ℕ} (buff_size - length (line ++ 0 ∷ [])) b'0',
)

pub fill-whole : (block : List ℕ) → length block ≡ 256 → fill block ≡ block
unfolding fill
fill-whole block e =
    let no_rest : buff_size - length block ≡ 0 = omega (arith, e) in rw no_rest (append-nil block)

c_string-text : (text rest : List ℕ) → NoZero text → c_string ((text ++ 0 ∷ []) ++ rest) ≡ some text
unfolding c_string
c_string-text [] rest nz = refl
c_string-text (c ∷ text) rest (ne, nz) = ground (arith, ne, c_string-text text rest nz)

pub c_string-fgets : (line : List ℕ) → NoZero line → c_string (fgets (some line)) ≡ some line
unfolding fgets fill
c_string-fgets line nz = c_string-text line _ nz

abbrev pub blocks : List Exchange → List ℕ → List ℕ
blocks [] bye = fgets (some bye)
blocks (x ∷ xs) bye = fgets (some x.line) ++ blocks xs bye

client_chat-closed :
    (xs : List Exchange) (bye stream : List ℕ)
    → AllExchanges xs
    → says_exit (fgets (some bye)) ≡ true
    → client_chat (map typed_of xs ++ typed bye ∷ []) stream ≡ (closed, stream ++ blocks xs bye)
unfolding client_chat
client_chat-closed [] bye stream all says = rw says refl
client_chat-closed (x ∷ xs) bye stream (v, all) says =
    rw (client_chat, v.stays)
      (client_chat-closed xs bye (stream ++ fgets (some x.line)) all says
        ∙ ap (λ s. (closed, s)) (append_assoc stream (fgets (some x.line)) (blocks xs bye)))

-- The responses, one block each.
abbrev pub responses : List Exchange → List ℕ
responses [] = []
responses (x ∷ xs) = fgets x.response.line ++ responses xs

pub server_chat-closed :
    (xs : List Exchange) (bye : List ℕ) (last : Typed) (printed : List (List ℕ)) (sent : List ℕ)
    → AllExchanges xs
    → length bye < 256
    → says_exit (fgets (some bye)) ≡ true
    → server_chat (map turn_of xs ++ whole_turn last ∷ []) (blocks xs bye) printed sent
      ≡ (closed, printed ++ map line_of xs, sent ++ responses xs)
unfolding server_chat
server_chat-closed [] bye last printed sent all short says =
    let all_read : take 256 (fgets (some bye)) ≡ fgets (some bye) =
      rw (append-nil (fgets (some bye))) at
        (take-append (fgets (some bye)) [] 256 (sym (length-fgets bye short))) in
    rw
      (
        server_chat,
        all_read,
        fill-whole (fgets (some bye)) (length-fgets bye short),
        says,
        append-nil printed,
        append-nil sent,
      )
      refl
server_chat-closed (x ∷ xs) bye last printed sent (v, all) short says =
    let block : List ℕ = fgets (some x.line) in
    let full = length-fgets x.line v.short in
    rw
      (
        server_chat,
        take-append block (blocks xs bye) 256 (sym full),
        fill-whole block full,
        v.stays,
        c_string-fgets x.line v.text,
        v.answered,
        v.goes_on,
        drop-append block (blocks xs bye) 256 (sym full),
        server_chat-closed xs bye last (printed ++ x.line ∷ []) (sent ++ fgets x.response.line) all
            short says,
        append_assoc printed (x.line ∷ []) (map line_of xs),
        append_assoc sent (fgets x.response.line) (responses xs),
      )
      refl

-- Of the lines typed at the client, each of less than 256 bytes without a NUL and not taken for
-- "exit", and then one that is, the server prints all but the last, in order, and both sides close
-- their sockets, when each read returns 256 bytes, the writes succeed and no response is taken for
-- "exit". The server has then sent its responses.
pub server_chat-client_chat :
    (xs : List Exchange) (bye : List ℕ) (last : Typed)
    → AllExchanges xs
    → length bye < 256
    → says_exit (fgets (some bye)) ≡ true
    → ((client_chat (map typed_of xs ++ typed bye ∷ []) []).0 ≡ closed)
      × (server_chat
            (map turn_of xs ++ whole_turn last ∷ [])
            (client_chat (map typed_of xs ++ typed bye ∷ []) []).1
            []
            []
          ≡ (closed, map line_of xs, responses xs))
server_chat-client_chat xs bye last all short says =
    rw (client_chat-closed xs bye [] all says)
      (refl, server_chat-closed xs bye last [] [] all short says)
