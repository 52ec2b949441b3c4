-- ===== src/Gateway/Storage/Delivered.antt =====
-- client.c, os_msg.c, fdb.c and `storage_mgr`: the readings of a sensor in the database.
use mathlib.Core.List.{append_assoc, append-nil}
use linux_programing.Common.{
  ℕ, ◌≡◌, refl, ◌∙◌, sym, ap, true, some, List, [], ◌∷◌, ◌++◌, map, arith,
}
use linux_programing.Common.Int.{ℤ, pos}
use linux_programing.Gateway.Order.{IsSorted}
use linux_programing.Gateway.Search.Sensors.{contains}
use linux_programing.Gateway.Message.{JsonApi, Msg, returned}
use linux_programing.Gateway.Timestamp.{format_time}
use linux_programing.Gateway.Database.{Fdb, fdb_init, fdb_data_insert}
use linux_programing.Gateway.Database.Insert.{
  IsFdb, fdb_data_insert_lem, insert-IsFdb, fdb_init-IsFdb,
}
use linux_programing.Gateway.SensorNode.{
  JsonWriter, Node, Turn, Log, sending, random_temp, client_main,
}
use linux_programing.Gateway.SensorNode.Delivery.{Laws, Sendable, msg_parse-message}
use linux_programing.Gateway.SensorNode.Loop.{AllGranted, text_of, client_main-sends}
use linux_programing.Gateway.Storage.{Taken, store, store_all}

-- A message that SQLite takes.
abbrev pub taken : List ℕ → Taken
taken msg = record { msg = msg; sql_ok = true; stepped = true }

module _ {Item Real : Type 0} (api : JsonApi Item Real) (w : JsonWriter Item Real)
    (Finite : Real → Type 0) (laws : Laws api w Finite) (a b c d e id : ℤ)
    (s : IsSorted (a ∷ b ∷ c ∷ d ∷ e ∷ []))
    (listed : contains (a ∷ b ∷ c ∷ d ∷ e ∷ []) id ≡ true) where
  -- The temperatures are finite, the number of the sensor is an `int`, and the clock stands in a year up to
  -- 9999.
  abbrev pub AllRegular : List Turn → Type 0
  AllRegular [] = Unit
  AllRegular (t ∷ ts) = (Finite (random_temp w t.rand) × Sendable id t.now) × AllRegular ts

  -- What a turn of the sensor should leave in the database.
  abbrev pub reading_of : Turn → Msg Real
  reading_of t = record {
    ts = format_time t.now;
    temp = api.round_to_tenth (random_temp w t.rand);
    sen_id = id;
  }

  inserted-one :
      (f : Fdb (Msg Real)) (r : Msg Real)
      → IsFdb f
      → (fdb_data_insert true true r f).1.inserted ≡ f.inserted ++ some r ∷ []
  inserted-one f r v = ground (arith, fdb_data_insert_lem f true true r v)

  store_all-texts :
      (ts : List Turn) (m : Msg Real) (f : Fdb (Msg Real))
      → AllRegular ts
      → IsFdb f
      → (m' : Msg Real) × (f' : Fdb (Msg Real)) × (store_all api
            (a ∷ b ∷ c ∷ d ∷ e ∷ [])
            (map taken (map (text_of w id) ts))
            m
            f
          ≡ returned (m', f'))
        × (f'.inserted ≡ f.inserted ++ map some (map reading_of ts))
  unfolding store_all store
  store_all-texts [] m f all v = (m, f, refl, sym (append-nil f.inserted))
  store_all-texts (t ∷ ts) m f ((finite, date), all) v =
      let r : Msg Real = reading_of t in
      let g : Fdb (Msg Real) = (fdb_data_insert true true r f).1 in
      let (m', f', runs, inserted) = store_all-texts ts r g all (insert-IsFdb f true r v) in
      (
        m',
        f',
        rw
            (
              store_all,
              msg_parse-message api w Finite laws a b c d e id (random_temp w t.rand) t.now m s
                  listed finite date,
            )
            runs,
        inserted
            ∙ (ap (λ l. l ++ map some (map reading_of ts)) (inserted-one f r v)
                ∙ append_assoc f.inserted (some r ∷ []) (map some (map reading_of ts))),
      )

  -- When `storage_mgr` takes all that a sensor sends and SQLite takes all insertions, a new database
  -- holds one row for each turn of the sensor, in order, with its number, its rounded temperature
  -- and the text of its time; no message is refused and no access leaves its memory. The number is
  -- one of five ascending ones and an `int`, the temperatures are finite, the years are up to 9999, and the
  -- allocations of the sensor are granted.
  pub store_all-client_main :
      (fd : ℕ) (ts : List Turn) (m : Msg Real)
      → AllGranted ts
      → AllRegular ts
      → (n : Node) × (log : Log) × (m' : Msg Real) × (f : Fdb (Msg Real)) × (client_main w
            (pos fd)
            true
            id
            ts
          ≡ sending n log)
        × (store_all api (a ∷ b ∷ c ∷ d ∷ e ∷ []) (map taken log.texts) m fdb_init
            ≡ returned (m', f))
        × (f.inserted ≡ map some (map reading_of ts))
  unfolding fdb_init
  store_all-client_main fd ts m granted regular =
      let (n, log, sent, texts, errors, blocks) = client_main-sends w id fd ts granted in
      let (m', f, stored, inserted) = store_all-texts ts m fdb_init regular fdb_init-IsFdb in
      (n, log, m', f, sent, rw texts stored, inserted)
