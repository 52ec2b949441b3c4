-- ===== src/Gateway/Net.antt =====
-- final-assignment/os_net/os_net.c: TCP sockets. The state is the list of the open descriptors;
-- what each system call answers is an argument.
pub mod Laws
use linux_programing.Common.{
  ℕ, zero, suc, ◌+◌, ◌-◌, Bool, true, false, ◌||◌, Option, none, some, List, [], ◌∷◌, ◌++◌, ◌==◌,
  ltb, if◌then◌else◌, length, take, replicate, get_or,
}
use linux_programing.Common.Int.{ℤ, pos, negsuc}

abbrev pub Sockets : Type 0
Sockets = List ℕ

abbrev pub is_open : ℕ → Sockets → Bool
is_open fd [] = false
is_open fd (s ∷ open_fds) = (s == fd) || is_open fd open_fds

-- `OS_CloseSocket`
unfoldable pub os_close_socket : ℕ → Sockets → Sockets
os_close_socket fd [] = []
os_close_socket fd (s ∷ open_fds) =
    let rest = os_close_socket fd open_fds in if s == fd then rest else s ∷ rest

-- The answers in `OS_Connect`.
pub record ConnectAnswers : Type 0 where
  pub socket : Option ℕ
  pub connect : Bool

-- `ip` is `none` for NULL. The result is -1 or the descriptor.
connect_socket : ConnectAnswers → Option (List ℕ) → ℕ → Sockets → ℤ × Sockets
connect_socket a none fd s = (negsuc 0, os_close_socket fd s)
connect_socket a (some []) fd s = (negsuc 0, os_close_socket fd s)
connect_socket a (some (c ∷ ip)) fd s =
    if a.connect then (pos fd, s) else (negsuc 0, os_close_socket fd s)

pub os_connect : ConnectAnswers → Option (List ℕ) → Sockets → ℤ × Sockets
unfolding connect_socket
os_connect a ip s = elim a.socket [
  | none ↦ (negsuc 0, s)
  | some fd ↦ connect_socket a ip fd (fd ∷ s)
]

-- The answers in `OS_BindPort`.
pub record BindAnswers : Type 0 where
  pub socket : Option ℕ
  pub setsockopt : Bool
  pub bind : Bool
  pub listen : Bool

bind_socket : BindAnswers → ℕ → Sockets → ℤ × Sockets
bind_socket a fd s =
    if a.setsockopt
    then if a.bind
      then if a.listen then (pos fd, s) else (negsuc 0, os_close_socket fd s)
      else (negsuc 0, os_close_socket fd s)
    else (negsuc 0, os_close_socket fd s)

pub os_bind_port : BindAnswers → Sockets → ℤ × Sockets
unfolding bind_socket
os_bind_port a s = elim a.socket [ none ↦ (negsuc 0, s) | some fd ↦ bind_socket a fd (fd ∷ s) ]

-- `strncpy(srcip, text, addrsize - 1); srcip[addrsize - 1] = '\0'`: the text is cut or padded with
-- zeros.
pub strncpy : ℕ → List ℕ → List ℕ
strncpy zero text = []
strncpy (suc n) [] = 0 ∷ strncpy n []
strncpy (suc n) (c ∷ text) = c ∷ strncpy n text

-- The new descriptor, the address as it is left in `srcip`, and the open descriptors.
pub os_accept_tcp :
    Option ℕ
    → (address : List ℕ) → (addrsize : ℕ) → (srcip : List ℕ) → Sockets
    → ℤ × List ℕ × Sockets
os_accept_tcp none address addrsize srcip s = (negsuc 0, srcip, s)
os_accept_tcp (some fd) address addrsize srcip s =
    (pos fd, strncpy (addrsize - 1) address ++ 0 ∷ [], fd ∷ s)

-- `allocated` is the answer of `calloc`; `received` are the bytes that `recv` stored, `none` for an
-- error. A closed connection stores none. `recv` stores at most `sizet - 1` bytes.
pub os_recv_tcp : (allocated : Bool) → (received : Option (List ℕ)) → (sizet : ℕ) → Option (List ℕ)
os_recv_tcp false received sizet = none
os_recv_tcp true none sizet = none
os_recv_tcp true (some []) sizet = none
os_recv_tcp true (some (b ∷ bytes)) sizet =
    some
      (take (sizet - 1) (b ∷ bytes) ++ replicate (sizet - length (take (sizet - 1) (b ∷ bytes))) 0)

-- `sent` is the answer of `send`.
unfoldable pub os_send_tcp : (sent : ℤ) → ℤ
os_send_tcp (pos zero) = negsuc 0
os_send_tcp (pos (suc n)) = pos 0
os_send_tcp (negsuc n) = negsuc 0
