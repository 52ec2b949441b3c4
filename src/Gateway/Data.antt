-- ===== src/Gateway/Data.antt =====
-- `data_mgr` of final-assignment/main-server.c: the running averages of the five sensors. The type
-- `double` and its operations are parameters, so the order of the additions is kept.
pub mod Window
pub mod Stream
use linux_programing.Common.{
  ℕ, zero, suc, ◌+◌, ◌-◌, Bool, true, false, Option, none, some, List, [], ◌∷◌, ltb, leb,
  if◌then◌else◌, get_elem?, set, replicate, length,
}

-- The constants that the code compares with, and the two operations of `avg`.
pub record Doubles (D : Type 0) : Type 0 where
  pub zero_d : D
  pub minus_one : D
  pub add : D → D → D
  pub div_by_five : D → D
  pub is_le_zero : D → Bool
  pub is_ge_26 : D → Bool
  pub is_le_24 : D → Bool

-- A row of `val`: `val[id][0]`, the index that is written next, and `val[id][1]` to `val[id][5]`;
-- and `check[id - 1]`, whether the row has been full.
pub record Row (D : Type 0) : Type 0 where
  pub next : ℕ
  pub slots : List D
  pub check : Bool

-- What is reported of an average: the three messages to the log and the pipe, or none.
pub data Report (D : Type 0) : Type 0 where
  silent : Report D
  sensor_hot : D → Report D
  sensor_cold : D → Report D
  sensor_temp : D → Report D

module _ {D : Type 0} (d : Doubles D) where
  -- `avg` of shared/os_gen.c: `for (i = 1; i <= 5; i++) ret += arr[i]; ret /= 5;`
  sum_slots : D → List D → D
  sum_slots acc [] = acc
  sum_slots acc (x ∷ xs) = sum_slots (d.add acc x) xs

  unfoldable pub avg : List D → D
  unfolding sum_slots
  avg slots = d.div_by_five (sum_slots d.zero_d slots)

  pub initial : Row D
  initial = record { next = 1; slots = replicate 5 d.zero_d; check = false }

  unfoldable pub classify : D → Report D
  classify temp_avg =
      if d.is_le_zero temp_avg
      then silent
      else if d.is_ge_26 temp_avg
      then sensor_hot temp_avg
      else if d.is_le_24 temp_avg
      then sensor_cold temp_avg
      else sensor_temp temp_avg

  -- The reset of a full row, with the average of the first time.
  wrap : Row D → D → Row D × D
  wrap r temp_avg =
      if ltb 5 r.next
      then (if r.check
          then (record r { next = 1 }, temp_avg)
          else (record r { next = 1; check = true }, avg r.slots))
      else (r, temp_avg)

  -- The body of `if(ret == 0)` for the row of the sensor. A write outside the row is `none`.
  unfoldable pub record_temp : Row D → D → Option (Row D × Report D)
  unfolding wrap
  record_temp r temp =
      let r1 = record r { next = r.next + 1; slots = set r.slots (r.next - 1) temp } in
      let (r2, temp_avg) = wrap r1 (if r.check then avg r1.slots else d.minus_one) in
      if leb 1 r.next
      then if leb r.next (length r.slots) then some (r2, classify temp_avg) else none
      else none

  -- All the rows: sensor `id` stands at index `id - 1`. Another number is outside the arrays.
  unfoldable pub handle : List (Row D) → (id : ℕ) → D → Option (List (Row D) × Report D)
  handle rows zero temp = none
  handle rows (suc i) temp = elim (get_elem? rows i) [
    | none ↦ none
    | some r ↦ elim (record_temp r temp) [
      | none ↦ none
      | some (r', report) ↦ some (set rows i r', report)
    ]
  ]

  -- The messages of one sensor, in order.
  unfoldable pub run : Row D → List D → Option (Row D × List (Report D))
  run r [] = some (r, [])
  run r (t ∷ temps) = elim (record_temp r t) [
    | none ↦ none
    | some (r', report) ↦ elim (run r' temps) [
      | none ↦ none
      | some (r'', reports) ↦ some (r'', report ∷ reports)
    ]
  ]
