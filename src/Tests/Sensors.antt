-- ===== src/Tests/Sensors.antt =====
-- The sensors' numbers, messages and temperatures at concrete inputs.
use linux_programing.Common.{
  ℕ, ◌≡◌, refl, none, some, List, [], ◌∷◌, ◌++◌, arith, length, if◌then◌else◌, ◌==◌,
}
use mathlib.Core.List.{Perm}
use linux_programing.Common.Int.{ℤ, pos}
use linux_programing.Gateway.Order.{IsSorted}
use linux_programing.Gateway.Search.{search}
use linux_programing.Gateway.Search.Correct.{Answers, search-Answers}
use linux_programing.Gateway.Sort.{sort}
use linux_programing.Gateway.Sort.Correct.{sort-Ordered}
use linux_programing.Gateway.Message.{JsonApi, returned, Msg, msg_parse}
use linux_programing.Gateway.Message.Parse.{msg_parse-fields}

abbrev five : List ℤ
five = pos 1 ∷ pos 2 ∷ pos 3 ∷ pos 4 ∷ pos 5 ∷ []

five-IsSorted : IsSorted five
five-IsSorted = ground arith

search-Answers_example : Answers five (pos 4) (search five (pos 4) 0 4)
search-Answers_example = search-Answers five (pos 4) 4 five-IsSorted refl (omega arith)

sort-Ordered_example :
    (out : List ℤ) × (sort (pos 7 ∷ pos 3 ∷ pos 1 ∷ pos 0 ∷ []) 1 2
      ≡ some (pos 7 ∷ (out ++ pos 0 ∷ [])))
    × IsSorted out
    × Perm out (pos 3 ∷ pos 1 ∷ [])
sort-Ordered_example =
    sort-Ordered (pos 7 ∷ []) (pos 3 ∷ pos 1 ∷ []) (pos 0 ∷ []) 1 2 refl (omega arith) refl

-- A JSON document by its parts: an object of which a key leads to its length, which is the item.
abbrev toy : JsonApi ℕ ℕ
toy = record {
  parse = λ text. some 0;
  is_object = λ item. item == 0;
  get_object_item = λ item key. if item == 0 then some (length key) else none;
  as_int = λ item. if item == 8 then some (pos 2) else none;
  as_double = λ item. if item == 11 then some 251 else none;
  as_string = λ item. if item == 9 then some (49 ∷ 50 ∷ []) else none;
  as_array = λ item. if item == 7 then some (0 ∷ 0 ∷ []) else none;
  round_to_tenth = λ t. t;
}

abbrev before : Msg ℕ
before = record { ts = []; temp = 0; sen_id = pos 0 }

msg_parse-fields_example :
    msg_parse toy five (123 ∷ []) before
    ≡ returned (pos 0, record { ts = 49 ∷ 50 ∷ []; temp = 251; sen_id = pos 2 })
msg_parse-fields_example =
    msg_parse-fields toy 0 (pos 1) (pos 2) (pos 3) (pos 4) (pos 5) (pos 2) (123 ∷ []) (49 ∷ 50 ∷ [])
      251 8 9 11 before five-IsSorted refl refl refl refl refl refl (omega arith) refl refl
