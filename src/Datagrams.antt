-- ===== src/Datagrams.antt =====
-- 06-socket/ipv4_dgram and 06-socket/unix_dgram: dgram_server.c and any number of runs of dgram_client.c, as
-- a step relation. A step is one call on a socket, and whether it succeeds is its argument; datagrams may
-- be lost and may overtake each other. `toupper` of the C library is a parameter.
pub mod Responses
mod Tests
use linux_programing.Common.{
  ℕ, ◌≡◌, Bool, true, false, List, [], ◌∷◌, ◌++◌, ◌==◌, map, take, if◌then◌else◌,
}

-- `BUF_SIZE`
abbrev pub buf_size : ℕ
buf_size = 10

-- A client before `sendto` and before `recvfrom`; it has received its response, or returned 1.
pub data Client : Type 0 where
  c_send c_recv : Client
  c_received : (resp : List ℕ) → Client
  c_failed : Client

-- The server before `recvfrom`, and before `sendto` with what stands in `buf` and the sender; it has
-- returned 1.
pub data Server : Type 0 where
  s_recv : Server
  s_send : (claddr : ℕ) → (buf : List ℕ) → Server
  s_failed : Server

-- A datagram with the number of the client that sent it or is to have it.
abbrev pub Datagram : Type 0
Datagram = ℕ × List ℕ

pub record State : Type 0 where
  pub requests : List Datagram
  pub replies : List Datagram
  pub server : Server
  pub client : ℕ → Client

pub initial : State
initial = record { requests = []; replies = []; server = s_recv; client = λ i. c_send }

pub update : (ℕ → Client) → ℕ → Client → ℕ → Client
update client i c j = if j == i then c else client j

-- `toupper` is applied to each byte of `buf`; `recvfrom` drops what does not fit. `text` is what each
-- client has on its command line.
module _ (toupper : ℕ → ℕ) (text : ℕ → List ℕ) where
  pub client_sends : (i : ℕ) → (sent : Bool) → State → State
  unfolding update
  client_sends i sent s =
      if sent
      then record s { requests = s.requests ++ (i, text i) ∷ []; client = update s.client i c_recv }
      else record s { client = update s.client i c_failed }

  pub server_sends : (claddr : ℕ) → (buf : List ℕ) → (sent : Bool) → State → State
  server_sends claddr buf sent s =
      if sent
      then record s { replies = s.replies ++ (claddr, map toupper buf) ∷ []; server = s_recv }
      else record s { server = s_recv }

  pub client_receives : (i : ℕ) → (datagram : List ℕ) → (others : List Datagram) → State → State
  unfolding update
  client_receives i datagram others s = record s {
    replies = others;
    client = update s.client i (c_received (take buf_size datagram));
  }

  pub server_receives :
      (claddr : ℕ) → (datagram : List ℕ) → (others : List Datagram) → State → State
  server_receives claddr datagram others s = record s {
    requests = others;
    server = s_send claddr (take buf_size datagram);
  }

  pub data Step (s : State) : State → Type 0 where
    client_sendto : (i : ℕ) (sent : Bool) → s.client i ≡ c_send → Step s (client_sends i sent s)
    client_recvfrom :
        (i : ℕ) (datagram : List ℕ) (front back : List Datagram)
        → s.client i ≡ c_recv
        → s.replies ≡ front ++ (i, datagram) ∷ back
        → Step s (client_receives i datagram (front ++ back) s)
    client_fails :
        (i : ℕ) → s.client i ≡ c_recv → Step s (record s { client = update s.client i c_failed })
    server_recvfrom :
        (claddr : ℕ) (datagram : List ℕ) (front back : List Datagram)
        → s.server ≡ s_recv
        → s.requests ≡ front ++ (claddr, datagram) ∷ back
        → Step s (server_receives claddr datagram (front ++ back) s)
    server_fails : s.server ≡ s_recv → Step s (record s { server = s_failed })
    server_sendto :
        (claddr : ℕ) (buf : List ℕ) (sent : Bool)
        → s.server ≡ s_send claddr buf
        → Step s (server_sends claddr buf sent s)
    request_lost :
        (d : Datagram) (front back : List Datagram)
        → s.requests ≡ front ++ d ∷ back
        → Step s (record s { requests = front ++ back })
    reply_lost :
        (d : Datagram) (front back : List Datagram)
        → s.replies ≡ front ++ d ∷ back
        → Step s (record s { replies = front ++ back })

  pub data Reach : State → Type 0 where
    start : Reach initial
    next : {s t : State} → Reach s → Step s t → Reach t
