-- ===== src/Gateway/SensorNode/Delivery.antt =====
-- client.c and os_msg.c: what a sensor sends, as the gateway reads it.
use linux_programing.Common.{
  ℕ, ◌+◌, ◌^◌, ◌<◌, ◌≡◌, refl, Bool, true, false, none, some, List, [], ◌∷◌, arith, ◌==◌, leb,
  if◌then◌else◌, ◌&&◌,
}
use linux_programing.Common.Int.{ℤ, ◌≤ℤ◌, pos, negsuc, ltb_ℤ}
use linux_programing.Gateway.Order.{IsSorted}
use linux_programing.Gateway.Search.Sensors.{contains}
use linux_programing.Gateway.Message.{
  JsonApi, sensor_id, timestamp, temperature, Msg, returned, msg_parse,
}
use linux_programing.Gateway.Message.Parse.{msg_parse-fields}
use linux_programing.Gateway.Timestamp.{Tm, format_time}
use linux_programing.Gateway.Timestamp.Format.{
  IsDate, AllAscii, format_time-AllAscii, read_time-format_time,
}
use linux_programing.Gateway.SensorNode.{JsonWriter, message}

-- cJSON compares keys without regard to case.
abbrev lower : ℕ → ℕ
lower c = if leb b'A' c && leb c b'Z' then c + 32 else c

abbrev pub same_key : List ℕ → List ℕ → Bool
same_key [] [] = true
same_key [] (d ∷ l) = false
same_key (c ∷ k) [] = false
same_key (c ∷ k) (d ∷ l) = (lower c == lower d) && same_key k l

-- The numbers of an `int`.
abbrev pub IsInt : ℤ → Type 0
IsInt (pos n) = n < 2 ^ 31
IsInt (negsuc n) = n < 2 ^ 31

-- What a sensor may send: its number is an `int`, and its clock stands in a year up to 9999.
pub record Sendable (id : ℤ) (now : Tm) : Type 0 where
  pub date : IsDate now
  pub int : IsInt id

-- What cJSON promises of the objects that it builds: an item that was added is found under its key and
-- is of its kind, the others stay, and an object of a text and two numbers, as `getMsg` builds it, is parsed from its printed text. Texts are
-- of ASCII without a NUL, integers are those of an `int`, other numbers are finite.
pub record Laws {Item Real : Type 0} (api : JsonApi Item Real) (w : JsonWriter Item Real)
    (Finite : Real → Type 0) : Type 0 where
  pub string_item : List ℕ → Item
  pub number_item : Real → Item
  pub string_is_string : (s : List ℕ) → AllAscii s → api.as_string (string_item s) ≡ some s
  pub number_is_double : (r : Real) → api.as_double (number_item r) ≡ some r
  pub number_is_int : (n : ℤ) → IsInt n → api.as_int (number_item (w.of_int n)) ≡ some n
  pub created : api.is_object w.create_object ≡ true
  pub string_kept :
      (o : Item) (k s : List ℕ) → api.is_object o ≡ true → api.is_object (w.add_string o k s) ≡ true
  pub number_kept :
      (o : Item) (k : List ℕ) (r : Real)
      → api.is_object o ≡ true
      → api.is_object (w.add_number o k r) ≡ true
  pub get_created : (k : List ℕ) → api.get_object_item w.create_object k ≡ none
  pub get_string :
      (o : Item) (k s : List ℕ)
      → api.get_object_item o k ≡ none
      → api.get_object_item (w.add_string o k s) k ≡ some (string_item s)
  pub get_number :
      (o : Item) (k : List ℕ) (r : Real)
      → api.get_object_item o k ≡ none
      → api.get_object_item (w.add_number o k r) k ≡ some (number_item r)
  pub get_other_string :
      (o : Item) (k l s : List ℕ)
      → same_key k l ≡ false
      → api.get_object_item (w.add_string o k s) l ≡ api.get_object_item o l
  pub get_other_number :
      (o : Item) (k l : List ℕ) (r : Real)
      → same_key k l ≡ false
      → api.get_object_item (w.add_number o k r) l ≡ api.get_object_item o l
  pub parsed :
      (ts : List ℕ) (id : ℤ) (r : Real)
      → AllAscii ts
      → IsInt id
      → Finite r
      → api.parse (w.print_unformatted (message w ts id r)) ≡ some (message w ts id r)

not_above :
    (a b c d e id : ℤ)
    → IsSorted (a ∷ b ∷ c ∷ d ∷ e ∷ [])
    → contains (a ∷ b ∷ c ∷ d ∷ e ∷ []) id ≡ true
    → ltb_ℤ e id ≡ false
not_above a b c d e id s h =
    let ae : a ≤ℤ e = s.0.1.1.1.0 in
    let be : b ≤ℤ e = s.1.0.1.1.0 in
    let ce : c ≤ℤ e = s.1.1.0.1.0 in let de : d ≤ℤ e = s.1.1.1.0.0 in ground (arith, h)

module _ {Item Real : Type 0} (api : JsonApi Item Real) (w : JsonWriter Item Real)
    (Finite : Real → Type 0) (laws : Laws api w Finite) where
  -- What the gateway reads under each key of a message.
  get_timestamp_item :
      (ts : List ℕ) (id : ℤ) (r : Real)
      → api.get_object_item (message w ts id r) timestamp ≡ some (laws.string_item ts)
  unfolding message
  get_timestamp_item ts id r =
      rw
        (
          laws.get_other_number _ temperature timestamp r refl,
          laws.get_other_number _ sensor_id timestamp (w.of_int id) refl,
        )
        (laws.get_string _ timestamp ts (laws.get_created timestamp))

  get_sensor_item :
      (ts : List ℕ) (id : ℤ) (r : Real)
      → api.get_object_item (message w ts id r) sensor_id ≡ some (laws.number_item (w.of_int id))
  unfolding message
  get_sensor_item ts id r = rw (laws.get_other_number _ temperature sensor_id r refl) (
      laws.get_number _ sensor_id (w.of_int id) (
        rw (laws.get_other_string w.create_object timestamp sensor_id ts refl)
          (laws.get_created sensor_id)))

  get_temperature_item :
      (ts : List ℕ) (id : ℤ) (r : Real)
      → api.get_object_item (message w ts id r) temperature ≡ some (laws.number_item r)
  unfolding message
  get_temperature_item ts id r = laws.get_number _ temperature r (
      rw
        (
          laws.get_other_number _ sensor_id temperature (w.of_int id) refl,
          laws.get_other_string w.create_object timestamp temperature ts refl,
        )
        (laws.get_created temperature))

  message_is_object : (ts : List ℕ) (id : ℤ) (r : Real) → api.is_object (message w ts id r) ≡ true
  unfolding message
  message_is_object ts id r =
      laws.number_kept _ temperature r
        (laws.number_kept _ sensor_id (w.of_int id) (laws.string_kept _ timestamp ts laws.created))

  pub msg_parse-message :
      (a b c d e id : ℤ) (temp : Real) (now : Tm) (m : Msg Real)
      → IsSorted (a ∷ b ∷ c ∷ d ∷ e ∷ [])
      → contains (a ∷ b ∷ c ∷ d ∷ e ∷ []) id ≡ true
      → Finite temp
      → Sendable id now
      → msg_parse api
          (a ∷ b ∷ c ∷ d ∷ e ∷ [])
          (w.print_unformatted (message w (format_time now) id temp))
          m
        ≡ returned
            (pos 0, record { ts = format_time now; temp = api.round_to_tenth temp; sen_id = id })
  msg_parse-message a b c d e id temp now m s listed finite sendable =
      let ts : List ℕ = format_time now in
      rw
        (
          msg_parse-fields api (message w ts id temp) a b c d e id
              (w.print_unformatted (message w ts id temp)) ts temp (laws.number_item (w.of_int id))
              (laws.string_item ts) (laws.number_item temp) m s
              (laws.parsed ts id temp (format_time-AllAscii now sendable.date) sendable.int finite)
              (message_is_object ts id temp) (get_sensor_item ts id temp)
              (laws.number_is_int id sendable.int) (get_timestamp_item ts id temp)
              (laws.string_is_string ts (format_time-AllAscii now sendable.date))
              (omega (arith, read_time-format_time now sendable.date))
              (get_temperature_item ts id temp) (laws.number_is_double temp),
          not_above a b c d e id s listed,
          listed,
        )
        refl
