-- ===== src/Gateway/SensorNode/Tests.antt =====
-- The messages of a sensor at concrete inputs, with whole degrees and a small JSON.
use linux_programing.Common.{replicate, ◌≡◌, refl, true, some, List, [], ◌∷◌, length, map, arith}
use linux_programing.Common.Int.{ℤ, pos, negsuc, ◌+ℤ◌, ltb_ℤ}
use linux_programing.Gateway.Order.{IsSorted}
use linux_programing.Gateway.Message.{Msg, returned}
use linux_programing.Gateway.Timestamp.{Tm}
use linux_programing.Gateway.Timestamp.Format.{IsDate}
use linux_programing.Gateway.SensorNode.{Node, Turn, Log, sending, client_main}
use linux_programing.Gateway.Database.{Fdb, fdb_init}
use linux_programing.Gateway.Storage.{store_all}
use linux_programing.Gateway.Storage.Delivered.{taken, reading_of, store_all-client_main}
use linux_programing.Gateway.SensorNode.Toy.{reader, writer, toy}
use linux_programing.Gateway.Averages.{average_all}
use linux_programing.Gateway.Averages.Reports.{temps, average_all-Reported}
use linux_programing.Gateway.Data.{Doubles, Row, Report, initial}
use linux_programing.Gateway.Data.Stream.{Reported}
use linux_programing.Gateway.SensorNode.Delivery.{Sendable}
use linux_programing.Gateway.SensorNode.Loop.{text_of}

abbrev noon : Tm
noon = record { tm_year = 122; tm_mon = 8; tm_mday = 5; tm_hour = 12; tm_min = 0; tm_sec = 7 }

noon-IsDate : IsDate noon
noon-IsDate = record {
  year = omega arith;
  month = omega arith;
  day = omega arith;
  hour = omega arith;
  minute = omega arith;
  second = omega arith;
}

noon-Sendable : Sendable (pos 2) noon
noon-Sendable = record { date = noon-IsDate; int = omega arith }

abbrev five : List ℤ
five = pos 1 ∷ pos 2 ∷ pos 3 ∷ pos 4 ∷ pos 5 ∷ []

five-IsSorted : IsSorted five
five-IsSorted = ground arith

abbrev before : Msg ℤ
before = record { ts = []; temp = pos 0; sen_id = pos 0 }

abbrev turns : List Turn
turns =
    record { rand = 3; now = noon; calloc = true; timestamp_calloc = true; sent = negsuc 0 }
    ∷ record { rand = 0; now = noon; calloc = true; timestamp_calloc = true; sent = pos 60 }
    ∷ []

store_all-client_main_example :
    (n : Node) × (log : Log) × (m : Msg ℤ) × (f : Fdb (Msg ℤ)) × (client_main writer
        (pos 4)
        true
        (pos 2)
        turns
      ≡ sending n log)
    × (store_all reader five (map taken log.texts) before fdb_init ≡ returned (m, f))
    × (f.inserted
        ≡ map some (
            map
              (reading_of reader writer
                (λ r. Unit)
                toy
                (pos 1)
                (pos 2)
                (pos 3)
                (pos 4)
                (pos 5)
                (pos 2)
                five-IsSorted
                refl)
              turns))
store_all-client_main_example =
    store_all-client_main reader writer (λ r. Unit) toy (pos 1) (pos 2) (pos 3) (pos 4) (pos 5)
      (pos 2) five-IsSorted refl 4 turns before ((refl, refl), ((refl, refl), tt))
      ((tt, noon-Sendable), ((tt, noon-Sendable), tt))

-- Whole degrees.
abbrev degrees : Doubles ℤ
degrees = record {
  zero_d = pos 0;
  minus_one = negsuc 0;
  add = λ x y. x +ℤ y;
  div_by_five = λ x. x;
  is_le_zero = λ x. ltb_ℤ x (pos 1);
  is_ge_26 = λ x. ltb_ℤ (pos 25) x;
  is_le_24 = λ x. ltb_ℤ x (pos 25);
}

average_all-Reported_example :
    (m : Msg ℤ) × (rows : List (Row ℤ)) × (reports : List (Report ℤ)) × (average_all reader degrees
        five
        (map (text_of writer (pos 2)) turns)
        before
        (replicate 5 (initial degrees))
      ≡ returned (m, rows, reports))
    × Reported degrees
        (temps reader writer
          (λ r. Unit)
          toy
          (pos 1)
          (pos 2)
          (pos 3)
          (pos 4)
          (pos 5)
          1
          five-IsSorted
          refl
          degrees
          turns)
        0
        reports
    × (length reports ≡ length turns)
average_all-Reported_example =
    average_all-Reported reader writer (λ r. Unit) toy (pos 1) (pos 2) (pos 3) (pos 4) (pos 5) 1
      five-IsSorted refl degrees turns before refl ((tt, noon-Sendable), ((tt, noon-Sendable), tt))
      (omega arith)
