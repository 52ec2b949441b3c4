-- ===== src/Gateway/JsonFile/Laws.antt =====
-- os_json.c: what `json_fread` makes of a file, and what `json_fwrite` leaves.
use linux_programing.Common.{
  ◌≡◌, ◌≢◌, refl, Bool, true, false, Option, none, some, [], ◌∷◌, ◌++◌, map, length, take, ◌==◌,
  if◌then◌else◌, arith,
}
use linux_programing.Common.Int.{pos, negsuc}
use linux_programing.Gateway.Files.{content}
use linux_programing.Gateway.Json.{Text, json_strip}
use linux_programing.Gateway.Json.Strip.{json_strip-bounded}
use linux_programing.Gateway.JsonFile.{
  item, c_text, parse_stripped, parse_again, parse_buffer, json_fread, WriteAnswers, Output,
  print_to, json_fwrite,
}

-- A text without a zero inside.
abbrev pub IsText : Text → Type 0
IsText [] = Unit
IsText (c ∷ text) = (c ≢ 0) × IsText text

abbrev pub or_else : {A : Type 0} → Option A → Option A → Option A
or_else none other = other
or_else (some a) other = some a

c_text-content : (text : Text) → IsText text → c_text (map some text ++ some 0 ∷ []) ≡ some text
unfolding c_text
c_text-content [] t = refl
c_text-content (c ∷ text) t = ground (arith, t.0, c_text-content text t.1)

module _ {Item : Type 0} (parse : Text → Option Item) where
  parse_again-or_else :
      (retry : Bool) (text out : Text) (first : Option Item)
      → json_strip text ≡ some out
      → parse_again parse retry text first
        ≡ item (or_else first (if retry then parse out else none))
  unfolding parse_again parse_stripped
  parse_again-or_else retry text out (some i) e = refl
  parse_again-or_else false text out none e = refl
  parse_again-or_else true text out none e = rw e refl

  -- Of the contents of a whole file without a zero byte, `json_fread` returns what cJSON parses of
  -- the text or, when that fails and a retry is asked for, of the text that `json_strip` leaves,
  -- which always exists.
  pub json_fread-whole :
      (retry : Bool) (text : Text)
      → IsText text
      → (out : Text) × (json_strip text ≡ some out)
        × (json_fread parse retry (content (map some text ++ some 0 ∷ []))
            ≡ item (or_else (parse text) (if retry then parse out else none)))
  unfolding json_fread parse_buffer
  json_fread-whole retry text t =
      let (out, e, h) = json_strip-bounded text in
      (out, e, rw (c_text-content text t) (parse_again-or_else retry text out (parse text) e))

-- The text is complete in the file.
abbrev pub complete : WriteAnswers → Text → Bool
complete a text = if a.fopen then a.count == length text else false

-- For an item that can be printed, `json_fwrite` returns 0 exactly when the file opens and the whole
-- text is written; else -1. The file, once it opens, holds what was written, and buffers and streams
-- are given back on every path.
pub json_fwrite_lem :
    (a : WriteAnswers) (text : Text) (o : Output)
    → a.printed ≡ some text
    → json_fwrite a o ≡ (
      (if complete a text then pos 0 else negsuc 0),
      (if a.fopen then record o { file = some (take a.count text) } else o),
    )
unfolding json_fwrite print_to
json_fwrite_lem a text o printed = ground (arith, printed)
