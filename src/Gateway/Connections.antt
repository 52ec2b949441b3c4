-- ===== src/Gateway/Connections.antt =====
-- `connection_mgr` of final-assignment/main-server.c: one turn of its loop. What `select`, `accept`
-- and `recv` answer is given.
pub mod Laws
use linux_programing.Common.{
  ℕ, zero, suc, ◌+◌, Bool, true, false, ◌||◌, Option, none, some, List, [], ◌∷◌, ◌==◌, ltb, leb,
  if◌then◌else◌,
}
use linux_programing.Common.Int.{ℤ, pos, negsuc}
use linux_programing.Gateway.Net.{Sockets, is_open, os_close_socket}

-- What the loop does that can be seen from outside.
pub data Event : Type 0 where
  select_error : Event
  accept_error : Event
  new_connection : ℕ → Event
  connection_close : ℕ → Event
  recv_error : ℕ → Event
  pushed : ℕ → Event

-- `FD_SETSIZE` of the C library: FD_SET is undefined for a descriptor that is not below it.
abbrev pub fd_setsize : ℕ
fd_setsize = 1024

-- The descriptor set `master` and `fd_max`, the events so far, latest first, and whether FD_SET was given a
-- descriptor that is too large.
pub record Manager : Type 0 where
  pub listener : ℕ
  pub master : Sockets
  pub fd_max : ℕ
  pub events : List Event
  pub overrun : Bool

-- The answers of one turn: the descriptors that are ready, `none` when `select` fails, the new client, and the count of bytes
-- received from each descriptor.
pub record Turn : Type 0 where
  pub ready : Option Sockets
  pub accepted : Option ℕ
  pub received : ℕ → ℤ

log : Event → Manager → Manager
log e m = record m { events = e ∷ m.events }

pub accept_client : Option ℕ → Manager → Manager
unfolding log
accept_client none m = log accept_error m
accept_client (some client) m = log (new_connection client) (record m {
  master = client ∷ m.master;
  fd_max = if ltb m.fd_max client then client else m.fd_max;
  overrun = m.overrun || leb fd_setsize client;
})

-- `bytes = recv(...) <= 0`: the comparison comes first, so `bytes` is 1 where the count is not
-- positive, and 0 where it is.
pub bytes_of : ℤ → ℕ
bytes_of (pos zero) = 1
bytes_of (pos (suc n)) = 0
bytes_of (negsuc n) = 1

drop_client : ℕ → (bytes : ℕ) → Manager → Manager
unfolding log
drop_client i bytes m =
    let logged = log (if bytes == 0 then connection_close i else recv_error i) m in
    record logged { master = os_close_socket i m.master }

pub serve_client : ℕ → ℤ → Manager → Manager
unfolding drop_client bytes_of
serve_client i count m =
    if bytes_of count == 0 then log (pushed i) m else drop_client i (bytes_of count) m

pub handle_fd : Turn → (read_fds : Sockets) → ℕ → Manager → Manager
unfolding accept_client serve_client
handle_fd t read_fds i m =
    if is_open i read_fds
    then if i == m.listener then accept_client t.accepted m else serve_client i (t.received i) m
    else m

-- `for (i = 0; i <= fd_max; i++)`: `rounds` descriptors from `i` on. A client accepted on the way
-- can raise `fd_max`, but is not in the set that `select` filled.
scan : Turn → (read_fds : Sockets) → (rounds i : ℕ) → Manager → Manager
unfolding handle_fd
scan t read_fds zero i m = m
scan t read_fds (suc rounds) i m = scan t read_fds rounds (i + 1) (handle_fd t read_fds i m)

-- The loop goes on, or `exit(1)` was called.
pub data Turned : Type 0 where
  looping exited : Manager → Turned

selected : Turn → Option Sockets → Manager → Turned
unfolding scan log
selected t none m = exited (log select_error m)
selected t (some read_fds) m = looping (scan t read_fds (m.fd_max + 1) 0 m)

pub turn : Turn → Manager → Turned
unfolding selected
turn t m = selected t t.ready m
