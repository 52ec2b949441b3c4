-- ===== src/Gateway/Options/Port.antt =====
-- main-server.c and client.c: the port that the options leave.
use linux_programing.Common.{
  ◌≤◌, ◌<◌, ◌≡◌, refl, ◌⊎◌, inl, inr, Option, none, some, List, [], ◌∷◌, arith,
}
use linux_programing.Gateway.Options.{
  as_port, ClientOption, ClientSettings, set_client_port, client_option, client_options,
}

-- The port is as it was, or one that users may take.
abbrev pub IsPortOf : ClientSettings → ClientSettings → Type 0
IsPortOf s t = (t.port ≡ s.port) ⊎ ((1024 ≤ t.port) × (t.port < 65536))

client_option-IsPortOf :
    (o : ClientOption) (s t : ClientSettings) → client_option o s ≡ some t → IsPortOf s t
unfolding client_option set_client_port as_port
client_option-IsPortOf o s t e = ground arith

option_cases : {A : Type 0} (o : Option A) → (o ≡ none) ⊎ ((a : A) × (o ≡ some a))
option_cases none = inl refl
option_cases (some a) = inr (a, refl)

-- When the options of the sensor are accepted, its port is the one it was set to at first, or one
-- from 1024 to 65535.
pub client_options-IsPortOf :
    (opts : List ClientOption) (s t : ClientSettings)
    → client_options opts s ≡ some t
    → IsPortOf s t
unfolding client_options
client_options-IsPortOf [] s t e = ground arith
client_options-IsPortOf (o ∷ opts) s t e = elim (option_cases (client_option o s)) [
  | inl stopped ↦ absurd (ground (arith, e, stopped))
  | inr (s1, one) ↦
      let later = client_options-IsPortOf opts s1 t (ground (arith, e, one)) in
      ground (arith, later, client_option-IsPortOf o s s1 one)
]
