-- ===== src/Gateway/Json.antt =====
-- final-assignment/shared/os_json.c: `json_strip`, which clears the comments of a text in place.
-- A text is the list of its bytes, without the zero at its end.
pub mod Strip
use linux_programing.Common.{
  ℕ, zero, suc, ◌+◌, Bool, true, false, Option, none, some, List, [], ◌∷◌, ◌++◌, length, ◌==◌, ◌||◌,
  if◌then◌else◌,
}

abbrev pub Text : Type 0
Text = List ℕ

-- `strchr(line, '\n')`: the line, and the text behind the newline, if there is one.
pub split_line : Text → Text × Option Text
split_line [] = ([], none)
split_line (c ∷ text) =
    let rest = split_line text in if c == 10 then ([], some text) else (c ∷ rest.0, rest.1)

-- `strspn(line, " \t")`: the blanks, and the text from the cursor on.
pub split_blanks : Text → Text × Text
split_blanks [] = ([], [])
split_blanks (c ∷ text) =
    let rest = split_blanks text in
    if (c == 32) || (c == 9) then (c ∷ rest.0, rest.1) else ([], c ∷ text)

-- `strncmp(cursor, ..., 2)`
pub data Start : Type 0 where
  line_comment block_comment other : Start

pub start_of : Text → Start
start_of (a ∷ b ∷ text) =
    if a == 47
    then if b == 47 then line_comment else if b == 42 then block_comment else other
    else other
start_of (a ∷ []) = other
start_of [] = other

-- `strstr(text, "*/")`: the text behind it.
pub after_comment : Text → Option Text
after_comment [] = none
after_comment (a ∷ text) =
    let later = after_comment text in
    elim text [
      | [] ↦ none
      | b ∷ rest ↦ if a == 42 then if b == 47 then some rest else later else later
    ]

abbrev pub join : Text → Option Text → Text
join line none = line
join line (some rest) = line ++ 10 ∷ rest

-- Everything behind the two bytes at the cursor.
abbrev pub skip_two : Text → Text
skip_two (a ∷ b ∷ text) = text
skip_two (a ∷ []) = []
skip_two [] = []

-- The end of a turn: what stands before the next line, and the next line, if there is one.
pub turn : Start → (blanks cursor : Text) → (next : Option Text) → Text × Option Text
turn line_comment blanks cursor none = (blanks, none)
turn line_comment blanks cursor (some next) = (blanks ++ 10 ∷ [], some next)
turn block_comment blanks cursor next = elim (after_comment (skip_two (join cursor next))) [
  | none ↦ (blanks ++ join cursor next, none)
  | some rest ↦ (blanks, some rest)
]
turn other blanks cursor none = (blanks ++ cursor, none)
turn other blanks cursor (some next) = (blanks ++ (cursor ++ 10 ∷ []), some next)

pub strip_line : Text → Text × Option Text
unfolding turn
strip_line text =
    let line = split_line text in
    let cursor = split_blanks line.0 in turn (start_of cursor.1) cursor.0 cursor.1 line.1

-- What a turn leaves behind it, with the loop over the rest; `none`: out of fuel.
finish : Text × Option Text → (Text → Option Text) → Option Text
finish (before, none) loop = some before
finish (before, some next) loop = elim (loop next) [
  | none ↦ none
  | some text ↦ some (before ++ text)
]

pub strip : (fuel : ℕ) → Text → Option Text
unfolding finish strip_line
strip zero text = none
strip (suc fuel) text = finish (strip_line text) λ next. strip fuel next

pub json_strip : Text → Option Text
unfolding strip
json_strip text = strip (length text + 1) text
