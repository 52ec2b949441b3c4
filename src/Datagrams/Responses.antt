-- ===== src/Datagrams/Responses.antt =====
-- 06-socket/ipv4_dgram and 06-socket/unix_dgram: what the clients receive.
use mathlib.Core.Path.{subst}
use linux_programing.Common.{
  ℕ, zero, suc, ◌≤◌, ◌≡◌, refl, sym, ap, ◌∙◌, true, false, List, [], ◌∷◌, ◌++◌, ◌==◌, map, take,
  length, length-take, length-map, Bool-cases, inl, inr, ==_iff, arith,
}
use linux_programing.Datagrams.{
  buf_size, Client, c_recv, c_received, c_failed, Server, s_send, Datagram, State, initial, update,
  client_sends, server_sends, client_receives, server_receives, Step, client_sendto,
  client_recvfrom, client_fails, server_recvfrom, server_fails, server_sendto, request_lost,
  reply_lost, Reach, start, next,
}

abbrev All : (Datagram → Type 0) → List Datagram → Type 0
All P [] = Unit
All P (d ∷ ds) = P d × All P ds

All-append :
    (P : Datagram → Type 0) (ds es : List Datagram) → All P ds → All P es → All P (ds ++ es)
All-append P [] es p q = q
All-append P (d ∷ ds) es (x, p) q = (x, All-append P ds es p q)

-- One of several, and the others.
All-one :
    (P : Datagram → Type 0) (front back : List Datagram) (d : Datagram)
    → All P (front ++ d ∷ back)
    → P d × All P (front ++ back)
All-one P [] back d (x, p) = (x, p)
All-one P (f ∷ front) back d (y, p) = let (x, q) = All-one P front back d p in (x, (y, q))

take-all : (n : ℕ) (xs : List ℕ) → length xs ≤ n → take n xs ≡ xs
take-all zero [] h = refl
take-all zero (x ∷ xs) h = absurd (omega arith)
take-all (suc n) [] h = refl
take-all (suc n) (x ∷ xs) h = ap (λ t. x ∷ t) (take-all n xs (omega arith))

module _ (toupper : ℕ → ℕ) (text : ℕ → List ℕ) where
  -- What client `i` is to receive.
  abbrev pub response : ℕ → List ℕ
  response i = map toupper (take buf_size (text i))

  abbrev IsRequest : Datagram → Type 0
  IsRequest d = d.1 ≡ text d.0

  abbrev IsReply : Datagram → Type 0
  IsReply d = d.1 ≡ response d.0

  abbrev IsBuffer : Server → Type 0
  IsBuffer (s_send claddr buf) = buf ≡ take buf_size (text claddr)
  IsBuffer _ = Unit

  abbrev IsPrinted : ℕ → Client → Type 0
  IsPrinted i (c_received resp) = resp ≡ response i
  IsPrinted i _ = Unit

  record IsServed (s : State) : Type 0 where
    requests : All IsRequest s.requests
    replies : All IsReply s.replies
    server : IsBuffer s.server
    clients : (i : ℕ) → IsPrinted i (s.client i)

  IsPrinted-update :
      (client : ℕ → Client) (i : ℕ) (c : Client)
      → ((j : ℕ) → IsPrinted j (client j))
      → IsPrinted i c
      → (j : ℕ) → IsPrinted j (update client i c j)
  unfolding update
  IsPrinted-update client i c all one j = elim (Bool-cases (j == i)) [
    | inl same ↦ rw same (subst (λ k. IsPrinted k c) (sym ((==_iff j i).0 same)) one)
    | inr other ↦ rw other (all j)
  ]

  -- The response fits the buffer of the client.
  take-response : (i : ℕ) → take buf_size (response i) ≡ response i
  take-response i =
      take-all buf_size (response i)
        (omega (arith, length-map (take buf_size (text i)) toupper, length-take buf_size (text i)))

  Step-IsServed : {s t : State} → Step toupper text s t → IsServed s → IsServed t
  unfolding client_sends server_sends client_receives server_receives
  Step-IsServed {s} (client_sendto i true e) v = record {
    requests = All-append IsRequest s.requests ((i, text i) ∷ []) v.requests (refl, tt);
    replies = v.replies;
    server = v.server;
    clients = IsPrinted-update s.client i c_recv v.clients tt;
  }
  Step-IsServed {s} (client_sendto i false e) v = record {
    requests = v.requests;
    replies = v.replies;
    server = v.server;
    clients = IsPrinted-update s.client i c_failed v.clients tt;
  }
  Step-IsServed {s} (client_recvfrom i datagram front back e q) v =
      let (reply, others) =
        All-one IsReply front back (i, datagram) (subst (All IsReply) q v.replies) in
      record {
        requests = v.requests;
        replies = others;
        server = v.server;
        clients =
            IsPrinted-update s.client i (c_received (take buf_size datagram)) v.clients
              (ap (take buf_size) reply ∙ take-response i);
      }
  Step-IsServed {s} (client_fails i e) v = record {
    requests = v.requests;
    replies = v.replies;
    server = v.server;
    clients = IsPrinted-update s.client i c_failed v.clients tt;
  }
  Step-IsServed {s} (server_recvfrom claddr datagram front back e q) v =
      let (request, others) =
        All-one IsRequest front back (claddr, datagram) (subst (All IsRequest) q v.requests) in
      record {
        requests = others;
        replies = v.replies;
        server = ap (take buf_size) request;
        clients = v.clients;
      }
  Step-IsServed {s} (server_fails e) v = record {
    requests = v.requests;
    replies = v.replies;
    server = tt;
    clients = v.clients;
  }
  Step-IsServed {s} (server_sendto claddr buf true e) v = record {
    requests = v.requests;
    replies =
        All-append IsReply s.replies ((claddr, map toupper buf) ∷ []) v.replies
          (ap (map toupper) (subst IsBuffer e v.server), tt);
    server = tt;
    clients = v.clients;
  }
  Step-IsServed {s} (server_sendto claddr buf false e) v = record {
    requests = v.requests;
    replies = v.replies;
    server = tt;
    clients = v.clients;
  }
  Step-IsServed {s} (request_lost d front back q) v = record {
    requests = (All-one IsRequest front back d (subst (All IsRequest) q v.requests)).1;
    replies = v.replies;
    server = v.server;
    clients = v.clients;
  }
  Step-IsServed {s} (reply_lost d front back q) v = record {
    requests = v.requests;
    replies = (All-one IsReply front back d (subst (All IsReply) q v.replies)).1;
    server = v.server;
    clients = v.clients;
  }

  Reach-IsServed : {s : State} → Reach toupper text s → IsServed s
  unfolding initial
  Reach-IsServed start = record { requests = tt; replies = tt; server = tt; clients = λ i. tt }
  Reach-IsServed (next r st) = Step-IsServed st (Reach-IsServed r)

-- Whatever other clients send, and whichever datagrams are lost or overtake each other, what a client's
-- `recvfrom` stores in `resp` is what `toupper` makes of the first ten bytes of its own text.
pub client-response :
    (toupper : ℕ → ℕ) (text : ℕ → List ℕ) (i : ℕ) {s : State} {resp : List ℕ}
    → Reach toupper text s
    → s.client i ≡ c_received resp
    → resp ≡ map toupper (take buf_size (text i))
client-response toupper text i {s} {resp} r e =
    subst (IsPrinted toupper text i) e ((Reach-IsServed toupper text r).clients i)
