-- ===== src/Gateway/Data/Stream.antt =====
-- main-server.c, data_mgr: the reports on a series of temperatures of one sensor.
use linux_programing.Common.{
  ℕ, zero, suc, ◌+◌, ◌≡◌, refl, true, some, List, [], ◌∷◌, arith, ltb, if◌then◌else◌, length,
}
use linux_programing.Gateway.Data.{Doubles, Row, Report, silent, avg, initial, classify, run}
use linux_programing.Gateway.Data.Window.{Holds, initial-Holds, record_temp-Holds}

module _ {D : Type 0} (d : Doubles D) (temp : ℕ → D) where
  -- The `k` temperatures from number `n` on.
  abbrev pub series : (n k : ℕ) → List D
  series n zero = []
  series n (suc k) = temp n ∷ series (n + 1) k

  -- What is reported after each of the temperatures from number `n` on: nothing before the fifth, and
  -- then the classification of the average of a row that holds the last five.
  abbrev pub Reported : ℕ → List (Report D) → Type 0
  Reported n [] = Unit
  Reported n (report ∷ reports) =
      ((r : Row D) × Holds d (n + 1) temp r
        × (report ≡ (if ltb (n + 1) 5 then silent else classify d (avg d r.slots))))
      × Reported (n + 1) reports

  run_lem :
      (k n : ℕ) (r : Row D)
      → d.is_le_zero d.minus_one ≡ true
      → Holds d n temp r
      → (r' : Row D) × (reports : List (Report D)) × (run d r (series n k) ≡ some (r', reports))
        × Holds d (n + k) temp r'
        × Reported n reports
        × (length reports ≡ k)
  unfolding run
  run_lem zero n r negative h =
      let same : n + 0 ≡ n = omega arith in (r, [], refl, rw same h, tt, refl)
  run_lem (suc k) n r negative h =
      let (s, one, held) = record_temp-Holds d n temp r h negative in
      let (t, reports, later, last, reported, count) = run_lem k (n + 1) s negative held in
      let total : n + suc k ≡ n + 1 + k = omega arith in
      (
        t,
        _ ∷ reports,
        rw (run, one, later) refl,
        rw total last,
        ((s, held, refl), reported),
        omega (arith, count),
      )

  -- From the start of the program, every temperature of a sensor is stored within its row and gives one
  -- report, and the row holds the last five in the end. Nothing is reported before the fifth; each
  -- report from then on is the classification of the average of a row that holds the five that came
  -- last. It takes that -1 is not positive.
  pub run-Reported :
      (k : ℕ)
      → d.is_le_zero d.minus_one ≡ true
      → (r : Row D) × (reports : List (Report D)) × (run d (initial d) (series 0 k)
          ≡ some (r, reports))
        × Holds d k temp r
        × Reported 0 reports
        × (length reports ≡ k)
  run-Reported k negative =
      let all : 0 + k ≡ k = omega arith in
      rw all at (run_lem k 0 (initial d) negative (initial-Holds d temp))
