-- ===== src/Gateway/Message.antt =====
-- final-assignment/shared/os_msg.c: the messages of the sensors. The library cJSON and the type
-- `double` are parameters.
pub mod Parse
use linux_programing.Common.{
  ℕ, zero, suc, ◌+◌, Bool, true, false, Option, none, some, List, [], ◌∷◌, ltb, leb, if◌then◌else◌,
  length, set, replicate,
}
use linux_programing.Common.Int.{ℤ, pos, negsuc}
use linux_programing.Gateway.Search.{
  Outcome, found, missing, out_of_bounds, overflow, out_of_fuel, search,
}

-- What the code takes from cJSON, and the rounding to one decimal. An item that
-- `cJSON_GetObjectItem` does not find is NULL, of which every test is false.
pub record JsonApi (Item Real : Type 0) : Type 0 where
  pub parse : List ℕ → Option Item
  pub is_object : Item → Bool
  pub get_object_item : Item → List ℕ → Option Item
  pub as_int : Item → Option ℤ
  pub as_double : Item → Option Real
  pub as_string : Item → Option (List ℕ)
  pub as_array : Item → Option (List Item)
  pub round_to_tenth : Real → Real

abbrev pub sensor_id : List ℕ
sensor_id = b's' ∷ b'e' ∷ b'n' ∷ b's' ∷ b'o' ∷ b'r' ∷ b'I' ∷ b'D' ∷ []

abbrev pub timestamp : List ℕ
timestamp = b't' ∷ b'i' ∷ b'm' ∷ b'e' ∷ b's' ∷ b't' ∷ b'a' ∷ b'm' ∷ b'p' ∷ []

abbrev pub temperature : List ℕ
temperature = b't' ∷ b'e' ∷ b'm' ∷ b'p' ∷ b'e' ∷ b'r' ∷ b'a' ∷ b't' ∷ b'u' ∷ b'r' ∷ b'e' ∷ []

abbrev pub room_ids : List ℕ
room_ids = b'r' ∷ b'o' ∷ b'o' ∷ b'm' ∷ b'I' ∷ b'D' ∷ b's' ∷ []

-- A call returns, or uses memory that is not its own.
pub data Attempt (A : Type 0) : Type 0 where
  returned : A → Attempt A
  bad_access : Attempt A

-- `msg_t`
pub record Msg (Real : Type 0) : Type 0 where
  pub ts : List ℕ
  pub temp : Real
  pub sen_id : ℤ

-- `char ts[64]`
abbrev pub ts_size : ℕ
ts_size = 64

abbrev pub opt {ℓ κ} : {A : Type ℓ} {B : Type κ} → Option A → B → (A → B) → B
opt none b f = b
opt (some a) b f = f a

module _ {Item Real : Type 0} (api : JsonApi Item Real) where
  -- The part of `msg_parse` behind a sensor number that was found.
  parse_temperature : Item → Msg Real → Attempt (ℤ × Msg Real)
  parse_temperature root m =
      opt (opt (api.get_object_item root temperature) none api.as_double) (returned (negsuc 0, m))
        λ t. returned (pos 0, record m { temp = api.round_to_tenth t })

  -- `strcpy` into the 64 bytes of `ts`.
  parse_fields : Item → ℤ → Msg Real → Attempt (ℤ × Msg Real)
  unfolding parse_temperature
  parse_fields root id m =
      opt (opt (api.get_object_item root timestamp) none api.as_string)
        (returned (negsuc 0, record m { sen_id = id }))
        λ ts.
          if ltb (length ts) ts_size
          then parse_temperature root (record m { sen_id = id; ts = ts })
          else bad_access

  parse_sensor : Outcome → Item → ℤ → Msg Real → Attempt (ℤ × Msg Real)
  unfolding parse_fields
  parse_sensor found root id m = parse_fields root id m
  parse_sensor missing root id m = returned (negsuc 0, m)
  parse_sensor out_of_bounds root id m = bad_access
  parse_sensor overflow root id m = bad_access
  parse_sensor out_of_fuel root id m = bad_access

  -- Without a numeric "sensorID" the message is accepted, and `*msg_parsed` keeps its old contents.
  parse_root : List ℤ → Item → Msg Real → Attempt (ℤ × Msg Real)
  unfolding parse_sensor
  parse_root sen_ids root m =
      if api.is_object root
      then (opt (opt (api.get_object_item root sensor_id) none api.as_int) (returned (pos 0, m))
          λ id. parse_sensor (search sen_ids id 0 5) root id m)
      else returned (negsuc 0, m)

  pub msg_parse : List ℤ → (msg : List ℕ) → Msg Real → Attempt (ℤ × Msg Real)
  unfolding parse_root
  msg_parse sen_ids msg m =
      opt (api.parse msg) (returned (negsuc 0, m)) λ root. parse_root sen_ids root m

  -- One turn of the loop of `read_room`: the value for the slot, if there is one. An item that is
  -- deleted while it still hangs in the tree is used again by the next call.
  read_sensor : Item → Attempt (Option ℤ)
  read_sensor r =
      if api.is_object r
      then (opt (api.get_object_item r sensor_id) (returned none)
          λ s. opt (api.as_int s) bad_access λ v. returned (some v))
      else bad_access

  -- `senIDs[i] = ...`
  store_id : Attempt (Option ℤ) → (i : ℕ) → List (Option ℤ) → Attempt (List (Option ℤ))
  store_id bad_access i ids = bad_access
  store_id (returned none) i ids = returned ids
  store_id (returned (some v)) i ids =
      if ltb i (length ids) then returned (set ids i (some v)) else bad_access

  read_rooms : List Item → (i : ℕ) → List (Option ℤ) → Attempt (List (Option ℤ))
  unfolding read_sensor store_id
  read_rooms [] i ids = returned ids
  read_rooms (r ∷ rooms) i ids = elim (store_id (read_sensor r) i ids) [
    | returned ids' ↦ read_rooms rooms (i + 1) ids'
    | bad_access ↦ bad_access
  ]

  returned_ids : Attempt (List (Option ℤ)) → Attempt (Option (List (Option ℤ)))
  returned_ids (returned ids) = returned (some ids)
  returned_ids bad_access = bad_access

  -- `root` is what `json_fread` returns. The array is uninitialised at first: `none` in a slot.
  pub read_room : Option Item → Attempt (Option (List (Option ℤ)))
  unfolding read_rooms returned_ids
  read_room root =
      opt (opt (opt root none λ r. api.get_object_item r room_ids) none api.as_array)
        (returned none) λ rooms. returned_ids (read_rooms rooms 0 (replicate 5 none))
