-- ===== src/Gateway/Averages.antt =====
-- final-assignment/main-server.c, `data_mgr`: what it does with the messages that it takes from the list.
pub mod Reports
pub mod Taken
use linux_programing.Common.{ℕ, zero, suc, Option, none, some, List, [], ◌∷◌, ◌++◌}
use linux_programing.Common.Int.{ℤ, pos, negsuc}
use linux_programing.Gateway.Message.{JsonApi, Msg, Attempt, returned, bad_access, msg_parse}
use linux_programing.Gateway.Data.{Doubles, Row, Report, handle}

module _ {Item Real : Type 0} (api : JsonApi Item Real) (d : Doubles Real) (sen_ids : List ℤ) where
  report_handled :
      Msg Real
      → Option (List (Row Real) × Report Real)
      → Attempt (Msg Real × List (Row Real) × List (Report Real))
  report_handled m none = bad_access
  report_handled m (some (rows, report)) = returned (m, rows, report ∷ [])

  -- The rows of a sensor number; one below 1 is outside the arrays.
  handle_sensor :
      ℤ → Msg Real → List (Row Real) → Attempt (Msg Real × List (Row Real) × List (Report Real))
  unfolding report_handled
  handle_sensor (pos i) m rows = report_handled m (handle d rows i m.temp)
  handle_sensor (negsuc i) m rows = bad_access

  -- `if (ret == 0)`, with `*parsed` as it is then.
  average_parsed :
      Attempt (ℤ × Msg Real)
      → List (Row Real)
      → Attempt (Msg Real × List (Row Real) × List (Report Real))
  unfolding handle_sensor
  average_parsed bad_access rows = bad_access
  average_parsed (returned (pos zero, m)) rows = handle_sensor m.sen_id m rows
  average_parsed (returned (pos (suc n), m)) rows = returned (m, rows, [])
  average_parsed (returned (negsuc n, m)) rows = returned (m, rows, [])

  unfoldable pub average :
      (msg : List ℕ)
      → Msg Real
      → List (Row Real)
      → Attempt (Msg Real × List (Row Real) × List (Report Real))
  unfolding average_parsed
  average msg m rows = average_parsed (msg_parse api sen_ids msg m) rows

  with_reports :
      List (Report Real)
      → Attempt (Msg Real × List (Row Real) × List (Report Real))
      → Attempt (Msg Real × List (Row Real) × List (Report Real))
  with_reports first bad_access = bad_access
  with_reports first (returned (m, rows, reports)) = returned (m, rows, first ++ reports)

  -- The loop over the messages taken, with all that is reported.
  unfoldable pub average_all :
      List (List ℕ)
      → Msg Real
      → List (Row Real)
      → Attempt (Msg Real × List (Row Real) × List (Report Real))
  unfolding with_reports
  average_all [] m rows = returned (m, rows, [])
  average_all (msg ∷ msgs) m rows = elim (average msg m rows) [
    | bad_access ↦ bad_access
    | returned (n, rows', first) ↦ with_reports first (average_all msgs n rows')
  ]
