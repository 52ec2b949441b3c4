-- ===== src/Gateway/Averages/Taken.antt =====
-- main-server.c, `data_mgr`: what it has done when it has taken a message.
use linux_programing.Common.{
  ℕ, ◌≡◌, refl, true, List, [], ◌∷◌, ◌++◌, ◌⊎◌, arith, Option-cases, inl, inr,
}
use linux_programing.Common.Int.{ℤ, pos, negsuc}
use linux_programing.Gateway.Order.{IsSorted}
use linux_programing.Gateway.Search.Sensors.{contains}
use linux_programing.Gateway.Message.{JsonApi, Msg, Attempt, returned, bad_access}
use linux_programing.Gateway.Data.{Doubles, Row, Report, handle}
use linux_programing.Gateway.SensorNode.{JsonWriter, Turn, random_temp}
use linux_programing.Gateway.SensorNode.Delivery.{Laws, Sendable, msg_parse-message}
use linux_programing.Gateway.SensorNode.Loop.{text_of}
use linux_programing.Gateway.Storage.Delivered.{reading_of}
use linux_programing.Gateway.Averages.{handle_sensor, average, average_all}

Attempt-cases : {A : Type 0} (o : Attempt A) → (o ≡ bad_access) ⊎ ((a : A) × (o ≡ returned a))
Attempt-cases bad_access = inl refl
Attempt-cases (returned a) = inr (a, refl)

module _ {Item Real : Type 0} (api : JsonApi Item Real) (d : Doubles Real) (ids : List ℤ) where
  handle_sensor-returned :
      (i : ℤ) (m n : Msg Real) (rows rows' : List (Row Real)) (first : List (Report Real))
      → handle_sensor api d ids i m rows ≡ returned (n, rows', first)
      → (n ≡ m) × ((report : Report Real) × (first ≡ report ∷ []))
  unfolding handle_sensor
  handle_sensor-returned (negsuc i) m n rows rows' first e = cc
  handle_sensor-returned (pos i) m n rows rows' first e =
      elim (Option-cases (handle d rows i m.temp)) [
        | inl q ↦ ground (arith, q, e)
        | inr ((rows1, report), q) ↦ (ground (arith, q, e), (report, ground (arith, q, e)))
      ]

  pub average_all-nil :
      (m : Msg Real) (rows : List (Row Real))
      → average_all api d ids [] m rows ≡ returned (m, rows, [])
  unfolding average_all
  average_all-nil m rows = refl

  -- What was taken first, and the rest.
  pub average_all-cons :
      (msg : List ℕ) (msgs : List (List ℕ)) (m m' : Msg Real) (rows rows' : List (Row Real))
      (reports : List (Report Real))
      → average_all api d ids (msg ∷ msgs) m rows ≡ returned (m', rows', reports)
      → (n : Msg Real) × (rows1 : List (Row Real)) × (first : List (Report Real)) × (rest : List
          (Report Real))
        × (average api d ids msg m rows ≡ returned (n, rows1, first))
        × (average_all api d ids msgs n rows1 ≡ returned (m', rows', rest))
        × (reports ≡ first ++ rest)
  unfolding average_all
  average_all-cons msg msgs m m' rows rows' reports e =
      elim (Attempt-cases (average api d ids msg m rows)) [
        | inl q ↦ ground (arith, q, e)
        | inr ((n, rows1, first), q) ↦ elim (Attempt-cases (average_all api d ids msgs n rows1)) [
          | inl r ↦ ground (arith, q, r, e)
          | inr ((n2, rows2, rest), r) ↦
              (n, rows1, first, rest, q, ground (arith, q, r, e), ground (arith, q, r, e))
        ]
      ]

module _ {Item Real : Type 0} (api : JsonApi Item Real) (w : JsonWriter Item Real)
    (Finite : Real → Type 0) (laws : Laws api w Finite) (a b c e f id : ℤ)
    (s : IsSorted (a ∷ b ∷ c ∷ e ∷ f ∷ [])) (listed : contains (a ∷ b ∷ c ∷ e ∷ f ∷ []) id ≡ true)
    (d : Doubles Real) where
  -- A message of the sensor is stored, and gives one report.
  pub average-message :
      (t : Turn) (m n : Msg Real) (rows rows' : List (Row Real)) (first : List (Report Real))
      → Finite (random_temp w t.rand)
      → Sendable id t.now
      → average api d (a ∷ b ∷ c ∷ e ∷ f ∷ []) (text_of w id t) m rows ≡ returned (n, rows', first)
      → (n ≡ reading_of api w Finite laws a b c e f id s listed t)
        × ((report : Report Real) × (first ≡ report ∷ []))
  unfolding average
  average-message t m n rows rows' first finite date taken =
      let parsed =
        msg_parse-message api w Finite laws a b c e f id (random_temp w t.rand) t.now m s listed
          finite date in
      let r : Msg Real = reading_of api w Finite laws a b c e f id s listed t in
      handle_sensor-returned api d (a ∷ b ∷ c ∷ e ∷ f ∷ []) id r n rows rows' first
        (rw parsed at taken)
