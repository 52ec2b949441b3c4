-- ===== src/Tests/Connections.antt =====
-- The sockets of the gateway at concrete inputs.
use linux_programing.Common.{refl, false, some, [], ◌∷◌, arith}
use linux_programing.Common.Int.{pos}
use linux_programing.Gateway.Connections.{Manager, Turn, turn}
use linux_programing.Gateway.Connections.Laws.{IsManager, AfterTurn, turn-IsManager}

-- The listener 3 has a new client, and the client 5 has closed its connection.
abbrev manager : Manager
manager = record { listener = 3; master = 5 ∷ 3 ∷ []; fd_max = 5; events = []; overrun = false }

abbrev closing : Turn
closing = record { ready = some (5 ∷ 3 ∷ []); accepted = some 6; received = λ i. pos 0 }

manager-IsManager : IsManager manager
manager-IsManager = record {
  listening = refl;
  bounded = (omega arith, (omega arith, tt));
  no_close = refl;
  fits = omega arith;
  not_overrun = refl;
}

turn-IsManager_example : AfterTurn (turn closing manager)
turn-IsManager_example = turn-IsManager closing manager (omega arith) manager-IsManager
