-- ===== src/Gateway/SensorNode.antt =====
-- final-assignment/client.c, with `getMsg` of shared/os_msg.c: a sensor that sends random temperatures.
-- cJSON, the type `double`, the clock and the answers of the allocator and of `send` are arguments.
pub mod Delivery
pub mod Loop
pub mod Toy
mod Tests
use linux_programing.Common.{
  ℕ, ◌+◌, ◌-◌, Bool, true, false, Option, none, some, List, [], ◌∷◌, ◌++◌, if◌then◌else◌,
}
use linux_programing.Common.Int.{ℤ, pos, negsuc}
use linux_programing.Gateway.Message.{sensor_id, timestamp, temperature, opt}
use linux_programing.Gateway.Timestamp.{Tm, get_timestamp}
use linux_programing.Gateway.Net.{os_send_tcp}

-- What `getMsg` takes from cJSON, and the arithmetic of `main`.
pub record JsonWriter (Item Real : Type 0) : Type 0 where
  pub create_object : Item
  pub add_string : Item → (key text : List ℕ) → Item
  pub add_number : Item → (key : List ℕ) → Real → Item
  pub print_unformatted : Item → List ℕ
  pub of_int : ℤ → Real
  pub add : Real → Real → Real
  pub mul : Real → Real → Real
  pub div : Real → Real → Real

-- `RAND_MAX` of the C library, MIN_TEMP, and MAX_TEMP - MIN_TEMP.
abbrev rand_max : ℕ
rand_max = 2147483647

abbrev min_temp : ℕ
min_temp = 17

abbrev temp_range : ℕ
temp_range = 18

-- The message `*msg`, and the blocks that are allocated, apart from those of cJSON that
-- `cJSON_Delete` frees.
pub record Node : Type 0 where
  pub msg : List ℕ
  pub blocks : ℕ

-- One turn of the loop: `rand`, the clock, whether each of the two blocks for the timestamp is
-- granted, and what `send` returns.
pub record Turn : Type 0 where
  pub rand : ℕ
  pub now : Tm
  pub calloc : Bool
  pub timestamp_calloc : Bool
  pub sent : ℤ

-- The loop goes on or `merror_exit` ended the program, with the texts passed to `send` and
-- how many of those calls failed.
pub record Log : Type 0 where
  pub texts : List (List ℕ)
  pub errors : ℕ

pub data Outcome : Type 0 where
  sending : Node → Log → Outcome
  ended : Node → Log → Outcome

module _ {Item Real : Type 0} (api : JsonWriter Item Real) where
  pub message : (ts : List ℕ) → (sen_id : ℤ) → (temp : Real) → Item
  message ts sen_id temp =
      api.add_number
        (api.add_number (api.add_string api.create_object timestamp ts) sensor_id
          (api.of_int sen_id))
        temperature temp

  -- The block for `timestamp` is granted, then its address is replaced by that of the text, which is
  -- freed at the end; the address in `*msg` is replaced by that of the printed message.
  pub get_msg : (calloc timestamp_calloc : Bool) → Tm → ℤ → Real → Node → Option Node
  unfolding message
  get_msg calloc timestamp_calloc now sen_id temp n =
      if calloc
      then (opt (get_timestamp timestamp_calloc now) none λ ts. some (record {
        msg = api.print_unformatted (message ts sen_id temp);
        blocks = n.blocks + 1 + 1 + 1 - 1;
      }))
      else none

  -- `MIN_TEMP + (rand() / (double) RAND_MAX) * (MAX_TEMP - MIN_TEMP)`
  unfoldable pub random_temp : (rand : ℕ) → Real
  random_temp rand = api.add (api.of_int (pos min_temp)) (
      api.mul (api.div (api.of_int (pos rand)) (api.of_int (pos rand_max)))
        (api.of_int (pos temp_range)))

  -- A failure of `OS_SendTCP` is only reported.
  note_send : ℤ → Log → Log
  note_send (pos r) log = log
  note_send (negsuc r) log = record log { errors = log.errors + 1 }

  pub client_turn : ℤ → Turn → Node → Log → Outcome
  unfolding get_msg random_temp note_send
  client_turn sen_id t n log =
      opt (get_msg t.calloc t.timestamp_calloc t.now sen_id (random_temp t.rand) n) (ended n log)
        λ m.
          sending m
            (note_send (os_send_tcp t.sent) (record log { texts = log.texts ++ m.msg ∷ [] }))

  pub client_loop : ℤ → List Turn → Node → Log → Outcome
  client_loop sen_id [] n log = sending n log
  client_loop sen_id (t ∷ ts) n log = elim (client_turn sen_id t n log) [
    | sending m l ↦ client_loop sen_id ts m l
    | ended m l ↦ ended m l
  ]

  -- `main` behind the options: `OS_Connect` returned `server_fd`; `os_malloc` may be refused.
  pub client_main : (server_fd : ℤ) → (allocated : Bool) → ℤ → List Turn → Outcome
  client_main (negsuc r) allocated sen_id ts =
      ended (record { msg = []; blocks = 0 }) (record { texts = []; errors = 0 })
  client_main (pos fd) false sen_id ts =
      ended (record { msg = []; blocks = 0 }) (record { texts = []; errors = 0 })
  client_main (pos fd) true sen_id ts =
      client_loop sen_id ts (record { msg = []; blocks = 1 }) (record { texts = []; errors = 0 })
