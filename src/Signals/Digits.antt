-- ===== src/Signals/Digits.antt =====
-- BTVN/05-signal/signal-blocking/main.c, `print_sigset_t`: what the printed digits say.
use linux_programing.Common.{
  ℕ, zero, suc, ◌+◌, ◌-◌, ◌*◌, ◌/◌, ◌%◌, ◌≤◌, ◌<◌, ◌≡◌, refl, sym, ap, ◌∙◌, Bool, true, false, some,
  List, [], ◌∷◌, ◌++◌, leb, arith,
}
use linux_programing.Signals.{
  Line, signal_line, hex_line, blank_line, test_bits, signal_lines, print_loop, print_sigset_t,
}

-- The hexadecimal number that the digits of a text make, behind those that make `high`.
pub read_hex : (high : ℕ) → List Line → ℕ
read_hex high [] = high
read_hex high (signal_line number ∷ lines) = read_hex high lines
read_hex high (blank_line ∷ lines) = read_hex high lines
read_hex high (hex_line x ∷ lines) = read_hex (16 * high + x) lines

abbrev pub bit : Bool → ℕ
bit true = 1
bit false = 0

-- The signals from `s` on, the first as the lowest bit of `n`.
pub mask : (sigismember : ℕ → Bool) → (s n : ℕ) → ℕ
mask sigismember s zero = 0
mask sigismember s (suc n) = bit (sigismember s) + 2 * mask sigismember (suc s) n

-- The digit of weight `2 ^ t`.
pub bit_at : (t value : ℕ) → ℕ
bit_at zero value = value % 2
bit_at (suc t) value = bit_at t (value / 2)

read_hex-append :
    (high : ℕ) (xs ys : List Line) → read_hex high (xs ++ ys) ≡ read_hex (read_hex high xs) ys
unfolding read_hex
read_hex-append high [] ys = refl
read_hex-append high (signal_line number ∷ xs) ys = read_hex-append high xs ys
read_hex-append high (blank_line ∷ xs) ys = read_hex-append high xs ys
read_hex-append high (hex_line x ∷ xs) ys = read_hex-append (16 * high + x) xs ys

read_hex-blank : (xs : List Line) → read_hex 0 (xs ++ blank_line ∷ []) ≡ read_hex 0 xs
unfolding read_hex
read_hex-blank xs = read_hex-append 0 xs (blank_line ∷ [])

module _ (sigismember : ℕ → Bool) where
  bit-lt : (s : ℕ) → bit (sigismember s) < 2
  bit-lt s = ground arith

  read_hex-signal_lines : (high i : ℕ) → read_hex high (signal_lines sigismember i) ≡ high
  unfolding read_hex signal_lines
  read_hex-signal_lines high i = ground arith

  test_bits-eq :
      (i : ℕ)
      → test_bits sigismember i
        ≡ bit (sigismember (i + 1))
          + 2 * bit (sigismember (i + 2))
          + 4 * bit (sigismember (i + 3))
          + 8 * bit (sigismember (i + 4))
  unfolding test_bits
  test_bits-eq i = ground arith

  mask-four :
      (s n : ℕ)
      → mask sigismember s (4 + n)
        ≡ bit (sigismember s)
          + 2 * bit (sigismember (s + 1))
          + 4 * bit (sigismember (s + 2))
          + 8 * bit (sigismember (s + 3))
          + 16 * mask sigismember (s + 4) n
  unfolding mask
  mask-four s n = ground arith

  abbrev turn : (i : ℕ) → List Line
  turn i = signal_lines sigismember i ++ hex_line (test_bits sigismember i) ∷ []

  read_hex-turn :
      (i n : ℕ) (printed : List Line)
      → read_hex 0 printed ≡ mask sigismember (i + 5) n
      → read_hex 0 (printed ++ turn i) ≡ mask sigismember (i + 1) (4 + n)
  unfolding read_hex
  read_hex-turn i n printed e =
      let digit = hex_line (test_bits sigismember i) ∷ [] in
      rw
        (
          read_hex-append 0 printed (turn i),
          read_hex-append (read_hex 0 printed) (signal_lines sigismember i) digit,
          read_hex-signal_lines (read_hex 0 printed) i,
          e,
        )
        (ground (arith, test_bits-eq i, mask-four (i + 1) n))

  print_loop-more :
      (fuel i : ℕ) (printed : List Line)
      → leb 4 (i - 4) ≡ true
      → print_loop (suc fuel) sigismember i printed
        ≡ print_loop fuel sigismember (i - 4) (printed ++ turn (i - 4))
  unfolding print_loop
  print_loop-more fuel i printed big = rw big refl

  -- From the digits of the signals above `i`, the loop makes those of all up to SIGRTMAX.
  print_loop-mask :
      (k fuel n : ℕ) (printed : List Line)
      → 4 * (k + 1) < fuel
      → read_hex 0 printed ≡ mask sigismember (4 * (k + 1) + 1) n
      → (lines : List Line) × (print_loop fuel sigismember (4 * (k + 1)) printed ≡ some lines)
        × (read_hex 0 lines ≡ mask sigismember 1 (4 * (k + 1) + n))
  unfolding print_loop
  print_loop-mask k zero n printed lt e = absurd (omega arith)
  print_loop-mask zero (suc fuel) n printed lt e = (
    (printed ++ turn 0) ++ blank_line ∷ [],
    refl,
    read_hex-blank (printed ++ turn 0) ∙ read_hex-turn 0 n printed e,
  )
  print_loop-mask (suc k) (suc fuel) n printed lt e =
      let i : ℕ = 4 * (k + 1) in
      let at : 4 * (suc k + 1) - 4 ≡ i = omega arith in
      let big : leb 4 (4 * (suc k + 1) - 4) ≡ true = ground arith in
      let (lines, run, reads) =
        print_loop-mask k fuel (4 + n) (printed ++ turn i) (omega arith)
          (read_hex-turn i n printed (e ∙ ap (λ (s : ℕ). mask sigismember s n) (omega arith))) in
      (
        lines,
        print_loop-more fuel (4 * (suc k + 1)) printed big
            ∙ ap (λ (u : ℕ). print_loop fuel sigismember u (printed ++ turn u)) at
            ∙ run,
        reads ∙ ap (mask sigismember 1) (omega arith),
      )

  bit_at-mask : (t s n : ℕ) → t < n → bit_at t (mask sigismember s n) ≡ bit (sigismember (s + t))
  unfolding mask bit_at
  bit_at-mask t s zero lt = absurd (omega arith)
  bit_at-mask zero s (suc n) lt = ground (arith, bit-lt s)
  bit_at-mask (suc t) s (suc n) lt =
      let half : (bit (sigismember s) + 2 * mask sigismember (suc s) n) / 2
          ≡ mask sigismember (suc s) n =
        omega (arith, bit-lt s) in
      rw half
        (bit_at-mask t (suc s) n (omega arith) ∙ ap (λ (u : ℕ). bit (sigismember u)) (omega arith))

-- When SIGRTMAX is a positive multiple of 4, `print_sigset_t` ends, and in the hexadecimal number that
-- its digits make, the bit of each signal up to SIGRTMAX is 1 when `sigismember` finds it in the set and
-- 0 when not.
pub print_sigset_t-bits :
    (sigismember : ℕ → Bool) (sigrtmax signum : ℕ)
    → 4 ≤ sigrtmax
    → sigrtmax % 4 ≡ 0
    → 1 ≤ signum
    → signum ≤ sigrtmax
    → (lines : List Line) × (print_sigset_t sigrtmax sigismember ≡ some lines)
      × (bit_at (signum - 1) (read_hex 0 lines) ≡ bit (sigismember signum))
unfolding print_sigset_t read_hex mask
print_sigset_t-bits sigismember sigrtmax signum big whole low high =
    let k : ℕ = sigrtmax / 4 - 1 in
    let at : 4 * (k + 1) ≡ sigrtmax = omega arith in
    let (lines, run, reads) =
      print_loop-mask sigismember k (4 * (k + 1) + 1) 0 [] (omega arith) refl in
    (
      lines,
      ap (λ (u : ℕ). print_loop (u + 1) sigismember u []) (sym at) ∙ run,
      ap (bit_at (signum - 1)) reads
          ∙ bit_at-mask sigismember (signum - 1) 1 (4 * (k + 1) + 0) (omega arith)
          ∙ ap (λ (u : ℕ). bit (sigismember u)) (omega arith),
    )
