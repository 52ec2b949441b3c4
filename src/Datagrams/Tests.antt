-- ===== src/Datagrams/Tests.antt =====
-- Datagrams at a concrete run: two clients, of which the second is served first.
use linux_programing.Common.{
  ℕ, ◌-◌, ◌≡◌, refl, true, List, [], ◌∷◌, ◌==◌, ◌&&◌, leb, map, take, if◌then◌else◌,
}
use linux_programing.Datagrams.{
  buf_size, c_received, State, initial, client_sends, server_sends, client_receives,
  server_receives, client_sendto, client_recvfrom, server_recvfrom, server_sendto, Reach, start,
  next,
}
use linux_programing.Datagrams.Responses.{client-response}

abbrev upper : ℕ → ℕ
upper c = if leb b'a' c && leb c b'z' then c - 32 else c

abbrev words : ℕ → List ℕ
words i = if i == 0 then b'a' ∷ [] else b'b' ∷ b'!' ∷ []

abbrev requests : State
requests = client_sends upper words 1 true (client_sends upper words 0 true initial)

abbrev answered : State
answered =
    server_sends upper words 1 (b'b' ∷ b'!' ∷ []) true
      (server_receives upper words 1 (b'b' ∷ b'!' ∷ []) ((0, b'a' ∷ []) ∷ []) requests)

abbrev printed : State
printed = client_receives upper words 1 (b'B' ∷ b'!' ∷ []) [] answered

run : Reach upper words printed
unfolding initial client_sends server_sends client_receives server_receives
run =
    let sent = next (next start (client_sendto 0 true refl)) (client_sendto 1 true refl) in
    let received =
      next sent (server_recvfrom 1 (b'b' ∷ b'!' ∷ []) ((0, b'a' ∷ []) ∷ []) [] refl refl) in
    let replied = next received (server_sendto 1 (b'b' ∷ b'!' ∷ []) true refl) in
    next replied (client_recvfrom 1 (b'B' ∷ b'!' ∷ []) [] [] refl refl)

printed-done : printed.client 1 ≡ c_received (b'B' ∷ b'!' ∷ [])
unfolding client_receives
printed-done = refl

client-response_example : (b'B' ∷ b'!' ∷ []) ≡ map upper (take buf_size (words 1))
client-response_example = client-response upper words 1 run printed-done
