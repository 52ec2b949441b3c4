-- ===== src/Gateway/Averages/Reports.antt =====
-- client.c, os_msg.c and `data_mgr`: the reports on what a sensor sends.
use linux_programing.Common.{
  ℕ, zero, suc, ◌+◌, ◌<◌, ◌≡◌, refl, true, some, List, [], ◌∷◌, map, arith, length, get_elem?,
  get_or, set, replicate, get_elem?-set_self, length-set,
}
use linux_programing.Common.Int.{ℤ, pos}
use linux_programing.Gateway.Order.{IsSorted}
use linux_programing.Gateway.Search.Sensors.{contains}
use linux_programing.Gateway.Message.{JsonApi, Msg, Attempt, returned}
use linux_programing.Gateway.Timestamp.{format_time}
use linux_programing.Gateway.Data.{Doubles, Row, Report, initial, record_temp, handle}
use linux_programing.Gateway.Data.Window.{Holds, initial-Holds, record_temp-Holds}
use linux_programing.Gateway.Data.Stream.{Reported}
use linux_programing.Gateway.SensorNode.{JsonWriter, Turn, random_temp}
use linux_programing.Gateway.SensorNode.Delivery.{Laws, msg_parse-message}
use linux_programing.Gateway.SensorNode.Loop.{text_of}
use linux_programing.Gateway.Storage.Delivered.{AllRegular}
use linux_programing.Gateway.Averages.{average, average_all}

get_elem?-replicate : {A : Type 0} (n i : ℕ) (x : A) → i < n → get_elem? (replicate n x) i ≡ some x
get_elem?-replicate zero i x h = absurd (omega (arith, h))
get_elem?-replicate (suc n) zero x h = refl
get_elem?-replicate (suc n) (suc i) x h = get_elem?-replicate n i x (omega (arith, h))

handle-some :
    {D : Type 0} (d : Doubles D) (rows : List (Row D)) (i : ℕ) (t : D) (r r' : Row D)
    (report : Report D)
    → get_elem? rows i ≡ some r
    → record_temp d r t ≡ some (r', report)
    → handle d rows (suc i) t ≡ some (set rows i r', report)
unfolding handle
handle-some d rows i t r r' report at one = rw (handle, at, one) refl

module _ {Item Real : Type 0} (api : JsonApi Item Real) (w : JsonWriter Item Real)
    (Finite : Real → Type 0) (laws : Laws api w Finite) (a b c e f : ℤ) (i : ℕ)
    (s : IsSorted (a ∷ b ∷ c ∷ e ∷ f ∷ []))
    (listed : contains (a ∷ b ∷ c ∷ e ∷ f ∷ []) (pos (suc i)) ≡ true) (d : Doubles Real) where
  abbrev pub temp_of : Turn → Real
  temp_of t = api.round_to_tenth (random_temp w t.rand)

  -- The temperature of turn `j`, from 0.
  abbrev pub temps : List Turn → ℕ → Real
  temps ts j = get_or (map temp_of ts) j d.zero_d

  -- From rows of which that of the sensor holds the last of `n` temperatures.
  record Averaged (n : ℕ) (temp : ℕ → Real) (ts : List Turn) (rows : List (Row Real))
      (o : Attempt (Msg Real × List (Row Real) × List (Report Real))) : Type 0 where
    msg : Msg Real
    rows' : List (Row Real)
    row : Row Real
    reports : List (Report Real)
    runs : o ≡ returned (msg, rows', reports)
    at : get_elem? rows' i ≡ some row
    held : Holds d (n + length ts) temp row
    reported : Reported d temp n reports
    count : length reports ≡ length ts

  average_all-Averaged :
      (n : ℕ) (temp : ℕ → Real) (ts : List Turn) (m : Msg Real) (rows : List (Row Real))
      (r : Row Real)
      → d.is_le_zero d.minus_one ≡ true
      → AllRegular api w Finite laws a b c e f (pos (suc i)) s listed ts
      → ((j : ℕ) → j < length ts → temp (n + j) ≡ get_or (map temp_of ts) j d.zero_d)
      → i < length rows
      → get_elem? rows i ≡ some r
      → Holds d n temp r
      → Averaged n temp ts rows
          (average_all api d (a ∷ b ∷ c ∷ e ∷ f ∷ []) (map (text_of w (pos (suc i))) ts) m rows)
  unfolding average_all average
  average_all-Averaged n temp [] m rows r negative regular same inside at h =
      let none_more : n + 0 ≡ n = omega arith in
      record {
        msg = m;
        rows' = rows;
        row = r;
        reports = [];
        runs = refl;
        at = at;
        held = rw none_more h;
        reported = tt;
        count = refl;
      }
  average_all-Averaged n temp (t ∷ ts) m rows r negative ((finite, date), regular) same inside at
        h =
      let (r', one, held) = record_temp-Holds d n temp r h negative in
      let first : n + 0 ≡ n = omega arith in
      let this : temp n ≡ temp_of t = rw first at (same 0 (omega arith)) in
      let rest =
        average_all-Averaged (n + 1) temp ts
          (record { ts = format_time t.now; temp = temp_of t; sen_id = pos (suc i) })
          (set rows i r') r' negative regular
          (λ j lt.
            let next : n + suc j ≡ n + 1 + j = omega arith in
            rw next at (same (suc j) (omega (arith, lt))))
          (omega (arith, length-set rows i r')) (get_elem?-set_self rows i r' inside) held in
      let stored = handle-some d rows i (temp_of t) r r' _ at (rw this at one) in
      let total : n + suc (length ts) ≡ n + 1 + length ts = omega arith in
      record {
        msg = rest.msg;
        rows' = rest.rows';
        row = rest.row;
        reports = _ ∷ rest.reports;
        runs =
            rw
              (
                average_all,
                msg_parse-message api w Finite laws a b c e f (pos (suc i)) (random_temp w t.rand)
                    t.now m s listed finite date,
                stored,
                rest.runs,
              )
              refl;
        at = rest.at;
        held = rw total rest.held;
        reported = ((r', held, refl), rest.reported);
        count = omega (arith, rest.count);
      }

  -- When `data_mgr` takes all that a sensor sends, every message is accepted and gives one report, and
  -- no access leaves the arrays. Nothing is reported before the fifth message; each report from then on
  -- is the classification of the average of a row that holds the last five rounded temperatures. The
  -- number of the sensor is one of five ascending ones and from 1 to 5, the temperatures are finite, the
  -- years are up to 9999, and -1 is not positive.
  pub average_all-Reported :
      (ts : List Turn) (m : Msg Real)
      → d.is_le_zero d.minus_one ≡ true
      → AllRegular api w Finite laws a b c e f (pos (suc i)) s listed ts
      → i < 5
      → (m' : Msg Real) × (rows : List (Row Real)) × (reports : List (Report Real)) × (average_all
            api d
            (a ∷ b ∷ c ∷ e ∷ f ∷ [])
            (map (text_of w (pos (suc i))) ts)
            m
            (replicate 5 (initial d))
          ≡ returned (m', rows, reports))
        × Reported d (temps ts) 0 reports
        × (length reports ≡ length ts)
  average_all-Reported ts m negative regular small =
      let v =
        average_all-Averaged 0 (temps ts) ts m (replicate 5 (initial d)) (initial d) negative
          regular (λ j lt. (let same : 0 + j ≡ j = omega arith in rw same refl))
          (omega (arith, small)) (get_elem?-replicate 5 i (initial d) small)
          (initial-Holds d (temps ts)) in
      (v.msg, v.rows', v.reports, v.runs, v.reported, v.count)
