-- ===== src/Gateway/Message/Parse.antt =====
-- os_msg.c: what `msg_parse` and `read_room` return.
use mathlib.Core.List.{append_assoc}
use linux_programing.Common.{
  ℕ, zero, suc, ◌+◌, ◌-◌, ◌≤◌, ◌<◌, ◌≡◌, refl, Bool, true, false, Option, none, some, List, [], ◌∷◌,
  ◌++◌, map, arith, ltb, if◌then◌else◌, length, set, replicate, ap, ◌∙◌, length-append, leb,
}
use linux_programing.Common.Int.{ℤ, pos, negsuc, ltb_ℤ}
use linux_programing.Gateway.Order.{IsSorted}
use linux_programing.Gateway.Search.{found, missing, out_of_bounds}
use linux_programing.Gateway.Search.Sensors.{search_five, contains}
use linux_programing.Gateway.Message.{
  JsonApi, sensor_id, timestamp, temperature, room_ids, returned, bad_access, Msg, ts_size, opt,
  msg_parse, parse_sensor, read_rooms, read_room, returned_ids,
}

module _ {Item Real : Type 0} (api : JsonApi Item Real) (root : Item) where
  -- The part behind the search, by its three outcomes.
  parse_sensor-fields :
      (p q : Bool) (id : ℤ) (ts : List ℕ) (t : Real) (i2 i3 : Item) (m : Msg Real)
      → api.get_object_item root timestamp ≡ some i2
      → api.as_string i2 ≡ some ts
      → length ts < ts_size
      → api.get_object_item root temperature ≡ some i3
      → api.as_double i3 ≡ some t
      → parse_sensor api (if p then out_of_bounds else if q then found else missing) root id m ≡ (
          if p
          then bad_access
          else if q
          then returned (pos 0, record { ts = ts; temp = api.round_to_tenth t; sen_id = id })
          else returned (negsuc 0, m))
  unfolding parse_sensor
  parse_sensor-fields true q id ts t i2 i3 m has_ts is_ts short has_t is_t = refl
  parse_sensor-fields false false id ts t i2 i3 m has_ts is_ts short has_t is_t = refl
  parse_sensor-fields false true id ts t i2 i3 m has_ts is_ts short has_t is_t =
      let fits : ltb (length ts) ts_size ≡ true = ground arith in
      rw (has_ts, is_ts, fits, has_t, is_t)

  -- On five ascending sensor numbers and a message with a number, a timestamp of less than 64
  -- bytes and a temperature, `msg_parse` stores all three and returns 0 when the number is listed;
  -- it returns -1 and stores nothing when the number is not listed but not above all of them; else
  -- the search leaves the array.
  pub msg_parse-fields :
      (a b c d e id : ℤ) (msg ts : List ℕ) (t : Real) (items items' items3 : Item) (m : Msg Real)
      → IsSorted (a ∷ b ∷ c ∷ d ∷ e ∷ [])
      → api.parse msg ≡ some root
      → api.is_object root ≡ true
      → api.get_object_item root sensor_id ≡ some items
      → api.as_int items ≡ some id
      → api.get_object_item root timestamp ≡ some items'
      → api.as_string items' ≡ some ts
      → length ts < ts_size
      → api.get_object_item root temperature ≡ some items3
      → api.as_double items3 ≡ some t
      → msg_parse api (a ∷ b ∷ c ∷ d ∷ e ∷ []) msg m ≡ (
          if ltb_ℤ e id
          then bad_access
          else if contains (a ∷ b ∷ c ∷ d ∷ e ∷ []) id
          then returned (pos 0, record { ts = ts; temp = api.round_to_tenth t; sen_id = id })
          else returned (negsuc 0, m))
  unfolding msg_parse
  msg_parse-fields a b c d e id msg ts t i1 i2 i3 m s parsed obj has_id is_id has_ts is_ts short
        has_t is_t =
      rw (parsed, obj, has_id, is_id, search_five a b c d e id s)
        (parse_sensor-fields (ltb_ℤ e id) (contains (a ∷ b ∷ c ∷ d ∷ e ∷ []) id) id ts t i2 i3 m
          has_ts is_ts short has_t is_t)

  -- On a message that is an object without a numeric sensor number, `msg_parse` returns 0 and
  -- stores nothing, so that the result of the message before stands.
  pub msg_parse-stale :
      (ids : List ℤ) (msg : List ℕ) (m : Msg Real)
      → api.parse msg ≡ some root
      → api.is_object root ≡ true
      → opt (api.get_object_item root sensor_id) none api.as_int ≡ none
      → msg_parse api ids msg m ≡ returned (pos 0, m)
  unfolding msg_parse
  msg_parse-stale ids msg m parsed obj no_id = rw (parsed, obj, no_id)

module _ {Item Real : Type 0} (api : JsonApi Item Real) where
  -- The rooms of a file, each an object with a sensor number.
  abbrev pub Rooms : List Item → List ℤ → Type 0
  Rooms [] [] = Unit
  Rooms [] (v ∷ vs) = ⊥
  Rooms (r ∷ rooms) [] = ⊥
  Rooms (r ∷ rooms) (v ∷ vs) =
      (api.is_object r ≡ true)
      × ((s : Item) × (api.get_object_item r sensor_id ≡ some s) × (api.as_int s ≡ some v))
      × Rooms rooms vs

  store_id-lt :
      (r s : Item) (v : ℤ) (rooms : List Item) (i : ℕ) (ids : List (Option ℤ))
      → api.is_object r ≡ true
      → api.get_object_item r sensor_id ≡ some s
      → api.as_int s ≡ some v
      → i < length ids
      → read_rooms api (r ∷ rooms) i ids ≡ read_rooms api rooms (i + 1) (set ids i (some v))
  unfolding read_rooms
  store_id-lt r s v rooms i ids obj at is_id h =
      let inside : ltb i (length ids) ≡ true = ground arith in
      rw (obj, at, is_id, inside, read_rooms)

  store_id-ge :
      (r s : Item) (v : ℤ) (rooms : List Item) (i : ℕ) (ids : List (Option ℤ))
      → api.is_object r ≡ true
      → api.get_object_item r sensor_id ≡ some s
      → api.as_int s ≡ some v
      → length ids ≤ i
      → read_rooms api (r ∷ rooms) i ids ≡ bad_access
  unfolding read_rooms
  store_id-ge r s v rooms i ids obj at is_id h =
      let beyond : ltb i (length ids) ≡ false = ground arith in
      rw (obj, at, is_id, beyond, read_rooms)

  set-next :
      (front back : List (Option ℤ)) (v : Option ℤ) (i : ℕ)
      → i ≡ length front
      → set (front ++ none ∷ back) i v ≡ (front ++ v ∷ []) ++ back
  set-next [] back v zero e = refl
  set-next [] back v (suc i) e = absurd (omega arith)
  set-next (x ∷ front) back v zero e = absurd (omega arith)
  set-next (x ∷ front) back v (suc i) e = ap (λ t. x ∷ t) (set-next front back v i (omega arith))

  read_rooms-fill :
      (rooms : List Item) (vs : List ℤ) (front : List (Option ℤ)) (i k : ℕ)
      → Rooms rooms vs
      → i ≡ length front
      → read_rooms api rooms i (front ++ replicate k none) ≡ (
          if leb (length vs) k
          then returned (front ++ (map some vs ++ replicate (k - length vs) none))
          else bad_access)
  unfolding read_rooms
  read_rooms-fill [] [] front i k all e =
      let room : leb 0 k ≡ true = ground arith in
      let z : k - 0 ≡ k = omega arith in rw (room, z) refl
  read_rooms-fill [] (v ∷ vs) front i k all e = absurd all
  read_rooms-fill (r ∷ rooms) [] front i k all e = absurd all
  read_rooms-fill (r ∷ rooms) (v ∷ vs) front i zero all e =
      let (s, at, is_id) = all.1 in
      let no_room : leb (suc (length vs)) 0 ≡ false = ground arith in
      rw no_room (
        store_id-ge r s v rooms i (front ++ []) all.0 at is_id
          (omega (arith, length-append front [])))
  read_rooms-fill (r ∷ rooms) (v ∷ vs) front i (suc k) all e =
      let (s, at, is_id) = all.1 in
      let ids : List (Option ℤ) = front ++ none ∷ replicate k none in
      let later =
        read_rooms-fill rooms vs (front ++ some v ∷ []) (i + 1) k all.2
          (omega (arith, length-append front (some v ∷ []))) in
      let same : leb (length vs) k ≡ leb (suc (length vs)) (suc k) = ground arith in
      let less : suc k - suc (length vs) ≡ k - length vs = omega arith in
      store_id-lt r s v rooms i ids all.0 at is_id
        (omega (arith, length-append front (none ∷ replicate k none)))
      ∙ rw
          (
            set-next front (replicate k none) (some v) i e,
            later,
            ← same,
            less,
            append_assoc front (some v ∷ []) (map some vs ++ replicate (k - length vs) none),
          )
          refl

  returned_ids-if :
      (b : Bool) (ids : List (Option ℤ))
      → returned_ids api (if b then returned ids else bad_access)
        ≡ (if b then returned (some ids) else bad_access)
  unfolding returned_ids
  returned_ids-if true ids = refl
  returned_ids-if false ids = refl

  -- On rooms of which each is an object with a sensor number, `read_room` fills the array from its
  -- start and leaves the rest unset, when there are at most five; else it writes outside the
  -- array.
  pub read_room-Rooms :
      (root array : Item) (rooms : List Item) (vs : List ℤ)
      → api.get_object_item root room_ids ≡ some array
      → api.as_array array ≡ some rooms
      → Rooms rooms vs
      → read_room api (some root) ≡ (
          if leb (length vs) 5
          then returned (some (map some vs ++ replicate (5 - length vs) none))
          else bad_access)
  unfolding read_room
  read_room-Rooms root array rooms vs at is_array all =
      rw (at, is_array)
        (ap (λ x. returned_ids api x) (read_rooms-fill rooms vs [] 0 5 all refl)
          ∙ returned_ids-if (leb (length vs) 5) (map some vs ++ replicate (5 - length vs) none))
