-- ===== src/Signals/Tests.antt =====
-- `print_sigset_t` at a concrete set: signals 2 and 64 of 64.
use linux_programing.Common.{
  ℕ, ◌-◌, ◌≡◌, refl, Bool, some, List, [], ◌∷◌, ◌++◌, ◌==◌, ◌||◌, replicate, arith,
}
use linux_programing.Signals.{Line, signal_line, hex_line, blank_line, print_sigset_t}
use linux_programing.Signals.Digits.{bit, bit_at, read_hex, print_sigset_t-bits}

abbrev two_signals : ℕ → Bool
two_signals signum = signum == 2 || signum == 64

print_two :
    print_sigset_t 64 two_signals
    ≡ some (
        signal_line 64
        ∷ hex_line 8
        ∷ (replicate 14 (hex_line 0) ++ signal_line 2 ∷ hex_line 2 ∷ blank_line ∷ []))
unfolding print_sigset_t
print_two = refl

print_sigset_t-bits_example :
    (lines : List Line) × (print_sigset_t 64 two_signals ≡ some lines)
    × (bit_at (2 - 1) (read_hex 0 lines) ≡ bit (two_signals 2))
print_sigset_t-bits_example =
    print_sigset_t-bits two_signals 64 2 (omega arith) (omega arith) (omega arith) (omega arith)
