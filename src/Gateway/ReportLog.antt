-- ===== src/Gateway/ReportLog.antt =====
-- final-assignment/main-server.c, `data_mgr`, with what it writes to the pipe of the log process. The
-- conversions `%d` and `%.1lf` are parameters.
pub mod Lines
mod Tests
use linux_programing.Common.{ℕ, Bool, Option, none, some, List, [], ◌∷◌, ◌++◌, codes}
use linux_programing.Common.Int.{ℤ}
use linux_programing.Gateway.Message.{JsonApi, Msg, Attempt, returned, bad_access}
use linux_programing.Gateway.Data.{
  Doubles, Row, Report, silent, sensor_hot, sensor_cold, sensor_temp,
}
use linux_programing.Gateway.Averages.{average}
use linux_programing.Gateway.LogPipe.{write_to_pipe}

pub record Conversions (Real : Type 0) : Type 0 where
  pub print_int : ℤ → List ℕ
  pub print_tenths : Real → List ℕ

module _ {Real : Type 0} (c : Conversions Real) where
  warning : Msg Real → (what : List ℕ) → Real → List ℕ
  warning parsed what temp_avg =
      parsed.ts
      ++ (codes " [WARNING]: The sensor node with ID '"
          ++ (c.print_int parsed.sen_id ++ (what ++ (c.print_tenths temp_avg ++ codes ">).\n"))))

  -- SENSOR_HOT, SENSOR_COLD and SENSOR_TEMP with the line break.
  unfoldable pub report_text : Msg Real → Report Real → List (List ℕ)
  unfolding warning
  report_text parsed silent = []
  report_text parsed (sensor_hot temp_avg) =
      warning parsed (codes "' reports it's hot (avg temperature = <") temp_avg ∷ []
  report_text parsed (sensor_cold temp_avg) =
      warning parsed (codes "' reports it's cold (avg temperature = <") temp_avg ∷ []
  report_text parsed (sensor_temp temp_avg) =
      (parsed.ts
        ++ (codes " [INFO]: The sensor node with ID '"
            ++ (c.print_int parsed.sen_id
                ++ (codes "' (avg temperature = <" ++ (c.print_tenths temp_avg ++ codes ">).\n")))))
      ∷ []

  pub report_texts : Msg Real → List (Report Real) → List (List ℕ)
  unfolding report_text
  report_texts parsed [] = []
  report_texts parsed (report ∷ reports) = report_text parsed report ++ report_texts parsed reports

-- `write_to_pipe` for each, with whether `write` succeeds; `none` when a text overruns its array.
pub write_texts :
    (written : Bool) → (stack : List ℕ) → List (List ℕ) → List (List ℕ) → Option (List (List ℕ))
write_texts written stack [] pipe = some pipe
write_texts written stack (text ∷ texts) pipe = elim (write_to_pipe written stack text pipe) [
  | none ↦ none
  | some pipe' ↦ write_texts written stack texts pipe'
]

module _ {Item Real : Type 0} (api : JsonApi Item Real) (d : Doubles Real) (c : Conversions Real)
    (sen_ids : List ℤ) (stack : List ℕ) where
  -- The loop over the messages taken, each with whether `write` succeeds.
  pub report_all :
      List (List ℕ × Bool)
      → Msg Real
      → List (Row Real)
      → (pipe : List (List ℕ)) → Attempt (Msg Real × List (Row Real) × List (List ℕ))
  unfolding report_texts write_texts
  report_all [] parsed rows pipe = returned (parsed, rows, pipe)
  report_all ((msg, written) ∷ msgs) parsed rows pipe =
      elim (average api d sen_ids msg parsed rows) [
        | bad_access ↦ bad_access
        | returned (parsed', rows', reports) ↦
            elim (write_texts written stack (report_texts c parsed' reports) pipe) [
              | none ↦ bad_access
              | some pipe' ↦ report_all msgs parsed' rows' pipe'
            ]
      ]
