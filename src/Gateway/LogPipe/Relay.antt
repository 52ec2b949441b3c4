-- ===== src/Gateway/LogPipe/Relay.antt =====
-- os_file.c and main-server.c: what reaches the log file.
use mathlib.Core.List.{append-nil, append_assoc}
use linux_programing.Common.{
  ℕ, ◌-◌, ◌<◌, ◌≡◌, ◌≢◌, refl, sym, ap, ◌∙◌, Bool, true, Option, none, some, List, [], ◌∷◌, ◌++◌,
  length, take, arith,
}
use linux_programing.Gateway.LogPipe.{
  os_msg_size, format_msg, write_to_pipe, c_string, append_blocks,
}

-- A text that a C string can hold.
abbrev pub NoZero : List ℕ → Type 0
NoZero [] = Unit
NoZero (c ∷ text) = (c ≢ 0) × NoZero text

-- Texts that fit into the array of `_log`.
abbrev pub AllFit : List (List ℕ) → Type 0
AllFit [] = Unit
AllFit (text ∷ texts) = (length text < os_msg_size) × NoZero text × AllFit texts

-- Successful calls of `write_to_pipe`, from the given pipe.
unfoldable pub send_all : (stack : List ℕ) → List (List ℕ) → List (List ℕ) → Option (List (List ℕ))
send_all stack [] pipe = some pipe
send_all stack (text ∷ texts) pipe = elim (write_to_pipe true stack text pipe) [
  | none ↦ none
  | some pipe' ↦ send_all stack texts pipe'
]

abbrev pub with_success : List (List ℕ) → List (List ℕ × Bool)
with_success [] = []
with_success (block ∷ blocks) = (block, true) ∷ with_success blocks

abbrev pub concat : List (List ℕ) → List ℕ
concat [] = []
concat (text ∷ texts) = text ++ concat texts

c_string-text : (text rest : List ℕ) → NoZero text → c_string (text ++ 0 ∷ rest) ≡ text
unfolding c_string
c_string-text [] rest nz = refl
c_string-text (c ∷ text) rest nz = ground (arith, nz.0, c_string-text text rest nz.1)

append_blocks-append :
    (xs ys : List (List ℕ)) (log : List ℕ)
    → append_blocks (with_success (xs ++ ys)) log
      ≡ append_blocks (with_success ys) (append_blocks (with_success xs) log)
unfolding append_blocks
append_blocks-append [] ys log = refl
append_blocks-append (x ∷ xs) ys log = append_blocks-append xs ys (log ++ c_string x)

write_to_pipe-fits :
    (stack text : List ℕ) (pipe : List (List ℕ))
    → length text < os_msg_size
    → write_to_pipe true stack text pipe
      ≡ some (pipe ++ (text ++ 0 ∷ take (os_msg_size - 1 - length text) stack) ∷ [])
unfolding write_to_pipe format_msg
write_to_pipe-fits stack text pipe fit = ground arith

-- When no text is longer than 127 bytes or has a zero inside, and every `write` succeeds, the
-- messages sent reach the pipe, and the child appends to its log what it appends for the pipe before,
-- then exactly the texts, one after the other.
pub append_blocks-send_all :
    (stack : List ℕ) (texts pipe : List (List ℕ)) (log : List ℕ)
    → AllFit texts
    → (blocks : List (List ℕ)) × (send_all stack texts pipe ≡ some blocks)
      × (append_blocks (with_success blocks) log
          ≡ append_blocks (with_success pipe) log ++ concat texts)
unfolding send_all append_blocks
append_blocks-send_all stack [] pipe log fit =
    (pipe, refl, sym (append-nil (append_blocks (with_success pipe) log)))
append_blocks-send_all stack (text ∷ texts) pipe log fit =
    let block : List ℕ = text ++ 0 ∷ take (os_msg_size - 1 - length text) stack in
    let (blocks, sent, logged) =
      append_blocks-send_all stack texts (pipe ++ block ∷ []) log fit.2 in
    (
      blocks,
      rw (write_to_pipe-fits stack text pipe fit.0, send_all) sent,
      logged
          ∙ ap (λ l. l ++ concat texts)
              (append_blocks-append pipe (block ∷ []) log
                ∙ ap (λ t. append_blocks (with_success pipe) log ++ t)
                    (c_string-text text (take (os_msg_size - 1 - length text) stack) fit.1))
          ∙ append_assoc (append_blocks (with_success pipe) log) text (concat texts),
    )
