-- ===== src/Gateway/ReportLog/Tests.antt =====
-- A report in the log file at a concrete turn of a sensor, with whole degrees and a small JSON.
use linux_programing.Common.{ℕ, refl, true, List, [], ◌∷◌, replicate, arith}
use linux_programing.Common.Int.{ℤ, pos, negsuc, ◌+ℤ◌, ltb_ℤ}
use linux_programing.Gateway.Order.{IsSorted}
use linux_programing.Gateway.Message.{Msg}
use linux_programing.Gateway.Timestamp.{Tm, format_time}
use linux_programing.Gateway.SensorNode.{Turn, random_temp}
use linux_programing.Gateway.SensorNode.Toy.{reader, writer, toy}
use linux_programing.Gateway.Data.{Doubles, Row, Report, sensor_hot, avg}
use linux_programing.Gateway.ReportLog.{Conversions}
use linux_programing.Gateway.ReportLog.Lines.{lines, sent}

abbrev noon : Tm
noon = record { tm_year = 122; tm_mon = 8; tm_mday = 5; tm_hour = 12; tm_min = 0; tm_sec = 7 }

abbrev five : List ℤ
five = pos 1 ∷ pos 2 ∷ pos 3 ∷ pos 4 ∷ pos 5 ∷ []

five-IsSorted : IsSorted five
five-IsSorted = ground arith

abbrev before : Msg ℤ
before = record { ts = []; temp = pos 0; sen_id = pos 0 }

abbrev turn : Turn
turn = record { rand = 3; now = noon; calloc = true; timestamp_calloc = true; sent = pos 60 }

-- Whole degrees, and the first slot in place of the average.
abbrev degrees : Doubles ℤ
degrees = record {
  zero_d = pos 0;
  minus_one = negsuc 0;
  add = λ x y. x +ℤ y;
  div_by_five = λ x. x;
  is_le_zero = λ x. ltb_ℤ x (pos 1);
  is_ge_26 = λ x. ltb_ℤ (pos 25) x;
  is_le_24 = λ x. ltb_ℤ x (pos 25);
}

abbrev digits : Conversions ℤ
digits = record { print_int = λ i. b'2' ∷ []; print_tenths = λ x. b'9' ∷ b'9' ∷ [] }

-- A row that has been full.
abbrev full : Row ℤ
full = record { next = 1; slots = replicate 5 (pos 20); check = true }

abbrev rows : List (Row ℤ)
rows = full ∷ full ∷ full ∷ full ∷ full ∷ []

abbrev temp : ℤ
temp = random_temp writer 3

abbrev after : Msg ℤ
after = record { ts = format_time noon; temp = temp; sen_id = pos 2 }

abbrev slots : List ℤ
slots = temp ∷ replicate 4 (pos 20)

abbrev rows_after : List (Row ℤ)
rows_after = full ∷ record full { next = 2; slots = slots } ∷ full ∷ full ∷ full ∷ []

abbrev reports : List (Report ℤ)
reports = sensor_hot (avg degrees slots) ∷ []

abbrev report_lines : List (List ℕ)
report_lines =
    lines reader writer (λ r. Unit) toy (pos 1) (pos 2) (pos 3) (pos 4) (pos 5) (pos 2)
      five-IsSorted refl degrees digits [] (turn ∷ []) reports
