-- ===== src/Gateway/JsonFile.antt =====
-- `json_fread` and `json_fwrite` of final-assignment/shared/os_json.c. What cJSON, stdio and `malloc`
-- answer are parameters.
pub mod Laws
use linux_programing.Common.{
  ℕ, ◌+◌, ◌-◌, Bool, true, false, Option, none, some, List, [], ◌∷◌, ◌++◌, map, length, take, ◌==◌,
  if◌then◌else◌,
}
use linux_programing.Common.Int.{ℤ, pos, negsuc}
use linux_programing.Gateway.Files.{Returned, content, null, unset, exited, bad_stream}
use linux_programing.Gateway.Json.{Text, json_strip}

-- What `json_fread` does: it returns an item or NULL, uses memory or a variable that is not set, or
-- the process has ended.
pub data Fread (Item : Type 0) : Type 0 where
  item : Option Item → Fread Item
  undefined : Fread Item
  ended : Fread Item

-- The text up to the zero; `none` when a byte before it is not set, or there is no zero.
pub c_text : List (Option ℕ) → Option Text
c_text [] = none
c_text (none ∷ bytes) = none
c_text (some c ∷ bytes) =
    let rest = c_text bytes in
    if c == 0 then some [] else elim rest [ none ↦ none | some text ↦ some (c ∷ text) ]

module _ {Item : Type 0} (parse : Text → Option Item) where
  -- The second parse, of the text without its comments.
  parse_stripped : Option Text → Fread Item
  parse_stripped none = undefined
  parse_stripped (some text) = item (parse text)

  parse_again : (retry : Bool) → Text → Option Item → Fread Item
  unfolding parse_stripped
  parse_again retry text (some i) = item (some i)
  parse_again false text none = item none
  parse_again true text none = parse_stripped (json_strip text)

  parse_buffer : (retry : Bool) → Option Text → Fread Item
  unfolding parse_again
  parse_buffer retry none = undefined
  parse_buffer retry (some text) = parse_again retry text (parse text)

  -- The argument is what `get_file_content` returns.
  pub json_fread : (retry : Bool) → Returned → Fread Item
  unfolding parse_buffer c_text
  json_fread retry (content bytes) = parse_buffer retry (c_text bytes)
  json_fread retry null = item none
  json_fread retry unset = undefined
  json_fread retry exited = ended
  json_fread retry bad_stream = undefined

-- The answers to `json_fwrite`: the printed text, `fopen`, and the count of `fwrite`.
pub record WriteAnswers : Type 0 where
  pub printed : Option Text
  pub fopen : Bool
  pub count : ℕ

-- The file, if it exists, and how many buffers and streams are held.
pub record Output : Type 0 where
  pub file : Option Text
  pub buffers : ℕ
  pub streams : ℕ

print_to : WriteAnswers → Text → Output → ℤ × Output
print_to a text o =
    let buffered : Output = record o { buffers = o.buffers + 1 } in
    let opened : Output = record buffered {
      streams = o.streams + 1;
      file = some (take a.count text);
    } in
    let freed : Output = record opened { buffers = opened.buffers - 1 } in
    if a.fopen
    then if a.count == length text
      then (pos 0, record freed { streams = freed.streams - 1 })
      else (negsuc 0, record freed { streams = freed.streams - 1 })
    else (negsuc 0, record buffered { buffers = buffered.buffers - 1 })

pub json_fwrite : WriteAnswers → Output → ℤ × Output
unfolding print_to
json_fwrite a o = elim a.printed [ none ↦ (negsuc 0, o) | some text ↦ print_to a text o ]
