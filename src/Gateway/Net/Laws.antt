-- ===== src/Gateway/Net/Laws.antt =====
-- os_net.c: the descriptors and the address text behind each function.
use linux_programing.Common.{
  ℕ, zero, suc, ◌-◌, ◌<◌, ◌≡◌, refl, Bool, true, false, ◌&&◌, Option, none, some, List, [], ◌∷◌,
  ◌++◌, arith, if◌then◌else◌, length, get_elem?, length-append, ap,
}
use linux_programing.Common.Int.{pos, negsuc}
use linux_programing.Gateway.Net.{
  Sockets, is_open, os_close_socket, ConnectAnswers, os_connect, BindAnswers, os_bind_port, strncpy,
  os_accept_tcp,
}

-- Closing a descriptor that is not open changes nothing.
close-eq : (fd : ℕ) (s : Sockets) → is_open fd s ≡ false → os_close_socket fd s ≡ s
unfolding os_close_socket
close-eq fd [] h = refl
close-eq fd (x ∷ s) h = ground (arith, close-eq fd s)

close-new : (fd : ℕ) (s : Sockets) → is_open fd s ≡ false → os_close_socket fd (fd ∷ s) ≡ s
unfolding os_close_socket
close-new fd s h = ground (arith, close-eq fd s h)

-- With a socket whose descriptor was not open, `OS_BindPort` returns it, as the only new one, when
-- each of the three calls behind it succeeds; else it returns -1 and leaves no descriptor open.
pub os_bind_port_lem :
    (a : BindAnswers) (fd : ℕ) (s : Sockets)
    → a.socket ≡ some fd
    → is_open fd s ≡ false
    → os_bind_port a s
      ≡ (if a.setsockopt && (a.bind && a.listen) then (pos fd, fd ∷ s) else (negsuc 0, s))
unfolding os_bind_port
os_bind_port_lem a fd s got new = ground (arith, close-new fd s new)

abbrev pub has_address : Option (List ℕ) → Bool
has_address none = false
has_address (some []) = false
has_address (some (c ∷ ip)) = true

-- With a socket whose descriptor was not open, `OS_Connect` returns it, as the only new one, when
-- there is an address and the connection succeeds; else it returns -1 and leaves no descriptor
-- open.
pub os_connect_lem :
    (a : ConnectAnswers) (ip : Option (List ℕ)) (fd : ℕ) (s : Sockets)
    → a.socket ≡ some fd
    → is_open fd s ≡ false
    → os_connect a ip s ≡ (if has_address ip && a.connect then (pos fd, fd ∷ s) else (negsuc 0, s))
unfolding os_connect
os_connect_lem a ip fd s got new = ground (arith, close-new fd s new)

length-strncpy : (n : ℕ) (text : List ℕ) → length (strncpy n text) ≡ n
unfolding strncpy
length-strncpy zero text = refl
length-strncpy (suc n) [] = ap suc (length-strncpy n [])
length-strncpy (suc n) (c ∷ text) = ap suc (length-strncpy n text)

get_elem?-append : (xs : List ℕ) (v : ℕ) → get_elem? (xs ++ v ∷ []) (length xs) ≡ some v
get_elem?-append [] v = refl
get_elem?-append (x ∷ xs) v = get_elem?-append xs v

-- When `OS_AcceptTCP` accepts a client, and `addrsize` is positive, `srcip` holds `addrsize` bytes
-- of which the last is zero.
pub os_accept_tcp-terminated :
    (fd : ℕ) (address : List ℕ) (addrsize : ℕ) (srcip : List ℕ) (s : Sockets)
    → 0 < addrsize
    → (length (os_accept_tcp (some fd) address addrsize srcip s).1 ≡ addrsize)
      × (get_elem? (os_accept_tcp (some fd) address addrsize srcip s).1 (addrsize - 1) ≡ some 0)
unfolding os_accept_tcp
os_accept_tcp-terminated fd address addrsize srcip s h =
    let n = length-strncpy (addrsize - 1) address in
    let zero_byte : List ℕ = 0 ∷ [] in
    (
      omega (arith, n, length-append (strncpy (addrsize - 1) address) zero_byte),
      rw n at (get_elem?-append (strncpy (addrsize - 1) address) 0),
    )
