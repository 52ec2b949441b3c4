-- ===== src/Signals.antt =====
-- BTVN/05-signal/signal-blocking/main.c, `print_sigset_t`: a set of signals as its test `sigismember`,
-- and SIGRTMAX as an argument.
pub mod Digits
mod Tests
use Prim.Native.Nat.{bit_or}
use linux_programing.Common.{
  ℕ, zero, suc, ◌+◌, ◌-◌, Bool, Option, none, some, List, [], ◌∷◌, ◌++◌, leb, if◌then◌else◌,
}

-- `printf("i + k = %d\n", …)`, `printf("%x\n", x)` and `printf("\n")`.
pub data Line : Type 0 where
  signal_line : (number : ℕ) → Line
  hex_line : (x : ℕ) → Line
  blank_line : Line

-- The four tests of one turn: `x` and what they print.
pub test_bits : (sigismember : ℕ → Bool) → (i : ℕ) → ℕ
test_bits sigismember i =
    let x1 : ℕ = if sigismember (i + 1) then bit_or 0 1 else 0 in
    let x2 : ℕ = if sigismember (i + 2) then bit_or x1 2 else x1 in
    let x3 : ℕ = if sigismember (i + 3) then bit_or x2 4 else x2 in
    if sigismember (i + 4) then bit_or x3 8 else x3

signal_lines : (sigismember : ℕ → Bool) → (i : ℕ) → List Line
signal_lines sigismember i =
    (if sigismember (i + 1) then signal_line (i + 1) ∷ [] else [])
    ++ ((if sigismember (i + 2) then signal_line (i + 2) ∷ [] else [])
        ++ ((if sigismember (i + 3) then signal_line (i + 3) ∷ [] else [])
            ++ (if sigismember (i + 4) then signal_line (i + 4) ∷ [] else [])))

-- The loop, with fuel; `none` means that the fuel ran out. `i` is at least 4 at the start of each turn.
pub print_loop : ℕ → (sigismember : ℕ → Bool) → (i : ℕ) → (printed : List Line) → Option (List Line)
unfolding test_bits signal_lines
print_loop zero sigismember i printed = none
print_loop (suc fuel) sigismember i printed =
    let i' : ℕ = i - 4 in
    let printed' : List Line =
      printed ++ (signal_lines sigismember i' ++ hex_line (test_bits sigismember i') ∷ []) in
    let rest = print_loop fuel sigismember i' printed' in
    if leb 4 i' then rest else some (printed' ++ blank_line ∷ [])

-- Each turn takes 4 from `i`.
pub print_sigset_t : (sigrtmax : ℕ) → (sigismember : ℕ → Bool) → Option (List Line)
unfolding print_loop
print_sigset_t sigrtmax sigismember = print_loop (sigrtmax + 1) sigismember sigrtmax []
