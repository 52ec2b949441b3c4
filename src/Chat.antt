-- ===== src/Chat.antt =====
-- 06-socket/ipv4_stream/stream_client.c and stream_server.c: `chat_func` of both sides over one stream
-- of bytes. What is typed, how many bytes each `read` returns and whether each `write` succeeds are
-- arguments; a `read` returns at most what is there.
pub mod Conversation
pub mod Dialogue
mod Tests
use linux_programing.Common.{
  ℕ, zero, suc, ◌+◌, ◌-◌, Bool, true, false, Option, none, some, List, [], ◌∷◌, ◌++◌, ◌==◌, ◌&&◌,
  if◌then◌else◌, length, take, drop, replicate,
}

-- `BUFF_SIZE`
abbrev pub buff_size : ℕ
buff_size = 256

-- `memset(buff, '0', BUFF_SIZE)`, and then a text with its NUL, or what `read` stores.
pub fill : List ℕ → List ℕ
fill bytes = bytes ++ replicate (buff_size - length bytes) b'0'

-- `fgets` of a line of at most 255 bytes; at the end of the input it stores nothing.
pub fgets : Option (List ℕ) → List ℕ
unfolding fill
fgets none = fill []
fgets (some line) = fill (line ++ 0 ∷ [])

-- `strncmp("exit", buff, 4) == 0`
pub says_exit : List ℕ → Bool
says_exit (a ∷ b ∷ c ∷ d ∷ rest) = (a == b'e') && ((b == b'x') && ((c == b'i') && (d == b't')))
says_exit _ = false

-- `printf("%s", buff)`: `none` when there is no NUL in the buffer.
pub c_string : List ℕ → Option (List ℕ)
c_string [] = none
c_string (c ∷ bytes) =
    if c == 0 then some [] else elim (c_string bytes) [ none ↦ none | some text ↦ some (c ∷ text) ]

-- The loop goes on, the socket was closed behind it, `handle_error` ended the program, or `printf` read
-- outside the buffer.
pub data Status : Type 0 where
  open_socket closed failed overread : Status

-- One turn at the client: the line typed, and whether `write` succeeds.
pub record Typed : Type 0 where
  pub line : Option (List ℕ)
  pub written : Bool

-- The client, with the bytes it has sent.
pub client_chat : List Typed → (stream : List ℕ) → Status × List ℕ
unfolding fgets says_exit
client_chat [] stream = (open_socket, stream)
client_chat (t ∷ ts) stream =
    let sendbuff = fgets t.line in
    let later = client_chat ts (stream ++ sendbuff) in
    if t.written
    then if says_exit sendbuff then (closed, stream ++ sendbuff) else later
    else (failed, stream)

-- One turn at the server: how much `read` returns, `none` for an error, and the response.
pub record Turn : Type 0 where
  pub numb_read : Option ℕ
  pub response : Typed

-- The server, with the messages it has printed and the bytes it has sent.
pub server_chat :
    List Turn
    → (stream : List ℕ) → (printed : List (List ℕ)) → (sent : List ℕ)
    → Status × List (List ℕ) × List ℕ
unfolding fill fgets says_exit c_string
server_chat [] stream printed sent = (open_socket, printed, sent)
server_chat (t ∷ ts) stream printed sent = elim t.numb_read [
  | none ↦ (failed, printed, sent)
  | some n ↦
      let recvbuff = fill (take n stream) in
      let sendbuff = fgets t.response.line in
      if says_exit recvbuff then (closed, printed, sent) else (elim (c_string recvbuff) [
        | none ↦ (overread, printed, sent)
        | some text ↦
            if t.response.written
            then if says_exit sendbuff
              then (closed, printed ++ text ∷ [], sent ++ sendbuff)
              else server_chat ts (drop n stream) (printed ++ text ∷ []) (sent ++ sendbuff)
            else (failed, printed ++ text ∷ [], sent)
      ])
]
