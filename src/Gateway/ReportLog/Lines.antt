-- ===== src/Gateway/ReportLog/Lines.antt =====
-- From a sensor to the log file: client.c, os_msg.c, `data_mgr`, `write_to_pipe` and the log process.
use linux_programing.Common.{ℕ, ◌≡◌, true, Bool, List, [], ◌∷◌, ◌++◌}
use linux_programing.Common.Int.{ℤ}
use linux_programing.Gateway.Order.{IsSorted}
use linux_programing.Gateway.Search.Sensors.{contains}
use linux_programing.Gateway.Message.{JsonApi}
use linux_programing.Gateway.Data.{Doubles, Report}
use linux_programing.Gateway.SensorNode.{JsonWriter, Turn}
use linux_programing.Gateway.SensorNode.Delivery.{Laws}
use linux_programing.Gateway.Storage.Delivered.{reading_of}
use linux_programing.Gateway.ReportLog.{Conversions, report_text}

-- A message that reaches the pipe when it gives a report.
abbrev pub sent : List ℕ → List ℕ × Bool
sent msg = (msg, true)

module _ {Item Real : Type 0} (api : JsonApi Item Real) (w : JsonWriter Item Real)
    (Finite : Real → Type 0) (laws : Laws api w Finite) (a b c e f id : ℤ)
    (s : IsSorted (a ∷ b ∷ c ∷ e ∷ f ∷ [])) (listed : contains (a ∷ b ∷ c ∷ e ∷ f ∷ []) id ≡ true)
    (d : Doubles Real) (conv : Conversions Real) (stack : List ℕ) where
  abbrev ids : List ℤ
  ids = a ∷ b ∷ c ∷ e ∷ f ∷ []

  -- The texts of the reports on the turns of the sensor, with the time and number of each.
  abbrev pub lines : List Turn → List (Report Real) → List (List ℕ)
  lines (t ∷ ts) (report ∷ reports) =
      report_text conv (reading_of api w Finite laws a b c e f id s listed t) report
      ++ lines ts reports
  lines _ _ = []
