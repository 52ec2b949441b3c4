-- ===== src/Gateway/SensorNode/Toy.antt =====
-- A small JSON with whole numbers, for the tests.
use linux_programing.Common.{
  ℕ, ◌≡◌, refl, Bool, true, false, Option, none, some, List, [], ◌∷◌, ◌==◌, arith, if◌then◌else◌,
}
use linux_programing.Common.Int.{ℤ, pos, negsuc, ◌+ℤ◌, ◌*ℤ◌}
use linux_programing.Gateway.Message.{JsonApi, sensor_id, timestamp, temperature}
use linux_programing.Gateway.SensorNode.{JsonWriter, message}
use linux_programing.Gateway.SensorNode.Delivery.{same_key, Laws}

pub data Json : Type 0 where
  empty : Json
  member : (object : Json) (key : List ℕ) (value : Json) → Json
  text : List ℕ → Json
  number : ℤ → Json

abbrev pub get : Json → List ℕ → Option Json
get (member o k v) key = elim (get o key) [
  | some i ↦ some i
  | none ↦ if same_key k key then some v else none
]
get _ key = none

abbrev pub code : ℤ → List ℕ → List ℕ
code (pos n) rest = 0 ∷ n ∷ rest
code (negsuc n) rest = 1 ∷ n ∷ rest

abbrev pub decode : ℕ → ℕ → ℤ
decode sign n = if sign == 0 then pos n else negsuc n

abbrev pub object : List ℕ → ℤ → ℤ → Json
object ts id r =
    member (member (member empty timestamp (text ts)) sensor_id (number id)) temperature (number r)

abbrev pub print : Json → List ℕ
print (member (member (member o k (text ts)) l (number id)) m (number r)) = code id (code r ts)
print _ = []

abbrev pub parse : List ℕ → Option Json
parse (s ∷ n ∷ t ∷ m ∷ ts) = some (object ts (decode s n) (decode t m))
parse _ = none

abbrev pub is_object : Json → Bool
is_object empty = true
is_object (member o k v) = is_object o
is_object _ = false

abbrev pub as_string : Json → Option (List ℕ)
as_string (text s) = some s
as_string _ = none

abbrev pub as_number : Json → Option ℤ
as_number (number n) = some n
as_number _ = none

abbrev pub reader : JsonApi Json ℤ
reader = record {
  parse = parse;
  is_object = is_object;
  get_object_item = get;
  as_int = as_number;
  as_double = as_number;
  as_string = as_string;
  as_array = λ j. none;
  round_to_tenth = λ r. r;
}

abbrev pub writer : JsonWriter Json ℤ
writer = record {
  create_object = empty;
  add_string = λ o k s. member o k (text s);
  add_number = λ o k r. member o k (number r);
  print_unformatted = print;
  of_int = λ n. n;
  add = λ a b. a +ℤ b;
  mul = λ a b. a *ℤ b;
  div = λ a b. a;
}

same_key-same : (k : List ℕ) → same_key k k ≡ true
same_key-same [] = refl
same_key-same (c ∷ k) = ground (arith, same_key-same k)

get-member : (o : Json) (k : List ℕ) (v : Json) → get o k ≡ none → get (member o k v) k ≡ some v
get-member o k v e = rw (e, same_key-same k) refl

get-other :
    (o : Json) (k l : List ℕ) (v : Json) → same_key k l ≡ false → get (member o k v) l ≡ get o l
get-other o k l v e = ground (arith, e)

parse-print :
    (ts : List ℕ) (id r : ℤ)
    → parse (print (message writer ts id r)) ≡ some (message writer ts id r)
unfolding message
parse-print ts (pos n) (pos m) = refl
parse-print ts (pos n) (negsuc m) = refl
parse-print ts (negsuc n) (pos m) = refl
parse-print ts (negsuc n) (negsuc m) = refl

pub toy : Laws reader writer (λ r. Unit)
toy = record {
  string_item = text;
  number_item = number;
  string_is_string = λ s ascii. refl;
  number_is_double = λ r. refl;
  number_is_int = λ n int. refl;
  created = refl;
  string_kept = λ o k s e. e;
  number_kept = λ o k r e. e;
  get_created = λ k. refl;
  get_string = λ o k s e. get-member o k (text s) e;
  get_number = λ o k r e. get-member o k (number r) e;
  get_other_string = λ o k l s e. get-other o k l (text s) e;
  get_other_number = λ o k l r e. get-other o k l (number r) e;
  parsed = λ ts id r ascii int finite. parse-print ts id r;
}
