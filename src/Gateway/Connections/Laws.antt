-- ===== src/Gateway/Connections/Laws.antt =====
-- main-server.c, connection_mgr: the descriptor set, `fd_max` and the events over a turn.
use linux_programing.Common.{
  ℕ, zero, suc, ◌+◌, ◌≤◌, ◌<◌, ◌≡◌, ◌≢◌, refl, Bool, true, false, inl, inr, Option, none, some,
  List, [], ◌∷◌, arith, ◌==◌, Bool-cases,
}
use linux_programing.Common.Int.{ℤ, pos, negsuc}
use linux_programing.Gateway.Net.{Sockets, is_open, os_close_socket}
use linux_programing.Gateway.Connections.{
  Event, fd_setsize, select_error, selected, Turned, looping, exited, accept_error, new_connection,
  connection_close, recv_error, pushed, Manager, Turn, accept_client, serve_client, handle_fd, scan,
  turn,
}

abbrev pub AllLe : ℕ → Sockets → Type 0
AllLe n [] = Unit
AllLe n (s ∷ fds) = (s ≤ n) × AllLe n fds

-- Whether a close is reported.
abbrev pub reports_close : List Event → Bool
reports_close [] = false
reports_close (connection_close i ∷ es) = true
reports_close (select_error ∷ es) = reports_close es
reports_close (accept_error ∷ es) = reports_close es
reports_close (new_connection c ∷ es) = reports_close es
reports_close (recv_error i ∷ es) = reports_close es
reports_close (pushed i ∷ es) = reports_close es

pub record IsManager (m : Manager) : Type 0 where
  pub listening : is_open m.listener m.master ≡ true
  pub bounded : AllLe m.fd_max m.master
  pub no_close : reports_close m.events ≡ false
  pub fits : m.fd_max < fd_setsize
  pub not_overrun : m.overrun ≡ false

-- The new client, if there is one, has a descriptor that FD_SET can take.
abbrev pub Accepts : Option ℕ → Type 0
Accepts none = Unit
Accepts (some client) = client < fd_setsize

AllLe-mono : (n k : ℕ) (fds : Sockets) → n ≤ k → AllLe n fds → AllLe k fds
AllLe-mono n k [] h a = tt
AllLe-mono n k (s ∷ fds) h a = (omega (arith, a.0), AllLe-mono n k fds h a.1)

AllLe-close : (n i : ℕ) (fds : Sockets) → AllLe n fds → AllLe n (os_close_socket i fds)
unfolding os_close_socket
AllLe-close n i [] a = tt
AllLe-close n i (s ∷ fds) a = elim (Bool-cases (s == i)) [
  | inl same ↦ rw same (AllLe-close n i fds a.1)
  | inr other ↦ rw other (a.0, AllLe-close n i fds a.1)
]

is_open-close_ne :
    (i j : ℕ) (fds : Sockets) → i ≢ j → is_open j (os_close_socket i fds) ≡ is_open j fds
unfolding os_close_socket
is_open-close_ne i j [] ne = refl
is_open-close_ne i j (s ∷ fds) ne = ground (arith, is_open-close_ne i j fds ne)

accept-IsManager :
    (a : Option ℕ) (m : Manager) → Accepts a → IsManager m → IsManager (accept_client a m)
unfolding accept_client
accept-IsManager none m low v = record {
  listening = v.listening;
  bounded = v.bounded;
  no_close = v.no_close;
  fits = v.fits;
  not_overrun = v.not_overrun;
}
accept-IsManager (some c) m low v = record {
  listening = ground (arith, v.listening);
  bounded = (ground arith, AllLe-mono m.fd_max _ m.master (ground arith) v.bounded);
  no_close = v.no_close;
  fits = ground (arith, low, v.fits);
  not_overrun = ground (arith, low, v.not_overrun);
}

serve-IsManager :
    (i : ℕ) (count : ℤ) (m : Manager)
    → i ≢ m.listener
    → IsManager m
    → IsManager (serve_client i count m)
unfolding serve_client
serve-IsManager i (pos zero) m ne v = record {
  listening = rw (is_open-close_ne i m.listener m.master ne) v.listening;
  bounded = AllLe-close m.fd_max i m.master v.bounded;
  no_close = v.no_close;
  fits = v.fits;
  not_overrun = v.not_overrun;
}
serve-IsManager i (pos (suc n)) m ne v = record {
  listening = v.listening;
  bounded = v.bounded;
  no_close = v.no_close;
  fits = v.fits;
  not_overrun = v.not_overrun;
}
serve-IsManager i (negsuc n) m ne v = record {
  listening = rw (is_open-close_ne i m.listener m.master ne) v.listening;
  bounded = AllLe-close m.fd_max i m.master v.bounded;
  no_close = v.no_close;
  fits = v.fits;
  not_overrun = v.not_overrun;
}

handle_fd-IsManager :
    (t : Turn) (read_fds : Sockets) (i : ℕ) (m : Manager)
    → Accepts t.accepted
    → IsManager m
    → IsManager (handle_fd t read_fds i m)
unfolding handle_fd
handle_fd-IsManager t read_fds i m low v = elim (Bool-cases (is_open i read_fds)) [
  | inr idle ↦ rw idle v
  | inl ready ↦ rw ready (elim (Bool-cases (i == m.listener)) [
    | inl own ↦ rw own (accept-IsManager t.accepted m low v)
    | inr client ↦ rw client (serve-IsManager i (t.received i) m (ground arith) v)
  ])
]

scan-IsManager :
    (t : Turn) (read_fds : Sockets) (rounds i : ℕ) (m : Manager)
    → Accepts t.accepted
    → IsManager m
    → IsManager (scan t read_fds rounds i m)
unfolding scan
scan-IsManager t read_fds zero i m low v = v
scan-IsManager t read_fds (suc rounds) i m low v =
    scan-IsManager t read_fds rounds (i + 1) (handle_fd t read_fds i m) low
      (handle_fd-IsManager t read_fds i m low v)

-- Behind a turn that ends the program no close is reported either.
abbrev pub AfterTurn : Turned → Type 0
AfterTurn (looping m) = IsManager m
AfterTurn (exited m) = reports_close m.events ≡ false

selected-AfterTurn :
    (t : Turn) (ready : Option Sockets) (m : Manager)
    → Accepts t.accepted
    → IsManager m
    → AfterTurn (selected t ready m)
unfolding selected
selected-AfterTurn t none m low v = v.no_close
selected-AfterTurn t (some read_fds) m low v = scan-IsManager t read_fds (m.fd_max + 1) 0 m low v

-- A turn of the loop, whatever `select` and `recv` answer, and `accept` but for a descriptor that is not
-- below FD_SETSIZE: if the loop goes on, the listener is still in the set, `fd_max` is at or above every
-- descriptor of the set and below FD_SETSIZE, and FD_SET was given no descriptor that is too large. No
-- connection is reported as closed by its client, also when `select` fails and the program exits.
pub turn-IsManager :
    (t : Turn) (m : Manager) → Accepts t.accepted → IsManager m → AfterTurn (turn t m)
unfolding turn
turn-IsManager t m low v = selected-AfterTurn t t.ready m low v
