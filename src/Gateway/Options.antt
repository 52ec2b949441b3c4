-- ===== src/Gateway/Options.antt =====
-- The options of the gateway and of the sensor, in `main` of final-assignment/main-server.c and
-- final-assignment/client.c. What `getopt` returns is a list, with the number of `atoi` for its
-- argument; `none` means that the program exits.
pub mod Port
use linux_programing.Common.{
  ℕ, ◌+◌, ◌-◌, ◌%◌, Bool, true, false, Option, none, some, List, [], ◌∷◌, ltb, ◌==◌, ◌||◌,
  if◌then◌else◌,
}
use linux_programing.Common.Int.{ℤ, pos, negsuc}

-- `(unsigned short)`
pub as_port : ℤ → ℕ
as_port (pos n) = n % 65536
as_port (negsuc n) = 65535 - n % 65536

-- `getopt(argc, argv, "hdp:")`
pub data ServerOption : Type 0 where
  help debug unknown : ServerOption
  port : (optarg : Option ℤ) → ServerOption

pub record ServerSettings : Type 0 where
  pub debug_level : Bool
  pub port : ℕ

set_server_port : Option ℤ → ServerSettings → Option ServerSettings
unfolding as_port
set_server_port none s = none
set_server_port (some n) s = if as_port n == 0 then none else some (record s { port = as_port n })

pub server_option : ServerOption → ServerSettings → Option ServerSettings
unfolding set_server_port
server_option help s = none
server_option debug s = some (record s { debug_level = true })
server_option unknown s = none
server_option (port optarg) s = set_server_port optarg s

pub server_options : List ServerOption → ServerSettings → Option ServerSettings
server_options [] s = some s
server_options (o ∷ opts) s = elim (server_option o s) [
  | none ↦ none
  | some t ↦ server_options opts t
]

-- `getopt(argc, argv, "hdp:a:i:")`
pub data ClientOption : Type 0 where
  help debug unknown : ClientOption
  port : (optarg : Option ℤ) → ClientOption
  address : (optarg : Option (List ℕ)) → ClientOption
  sensor : (optarg : Option ℤ) → ClientOption

-- `senID` is not set at first.
pub record ClientSettings : Type 0 where
  pub debug_level : Bool
  pub port : ℕ
  pub ip : Option (List ℕ)
  pub sen_id : Option ℤ

set_client_port : Option ℤ → ClientSettings → Option ClientSettings
unfolding as_port
set_client_port none s = none
set_client_port (some n) s =
    if ltb (as_port n) 1024 || ltb 65536 (as_port n)
    then none
    else some (record s { port = as_port n })

pub client_option : ClientOption → ClientSettings → Option ClientSettings
unfolding set_client_port
client_option help s = none
client_option debug s = some (record s { debug_level = true })
client_option unknown s = none
client_option (port optarg) s = set_client_port optarg s
client_option (address none) s = none
client_option (address (some ip)) s = some (record s { ip = some ip })
client_option (sensor none) s = none
client_option (sensor (some n)) s = some (record s { sen_id = some n })

pub client_options : List ClientOption → ClientSettings → Option ClientSettings
client_options [] s = some s
client_options (o ∷ opts) s = elim (client_option o s) [
  | none ↦ none
  | some t ↦ client_options opts t
]
