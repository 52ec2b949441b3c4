-- ===== src/Gateway/Timestamp/Format.antt =====
-- os_time.c: the length and the bytes of a timestamp.
use linux_programing.Common.{
  ℕ, ◌+◌, ◌/◌, ◌%◌, ◌≤◌, ◌<◌, ◌≡◌, refl, List, [], ◌∷◌, ◌++◌, length, arith, Option, none, some,
  ◌-◌, ◌*◌,
}
use linux_programing.Gateway.Timestamp.{Tm, digit, decimal, two_places, format_time}

-- What `localtime_r` stores for a year of four digits; a leap second is 60.
pub record IsDate (t : Tm) : Type 0 where
  pub year : t.tm_year < 8100
  pub month : t.tm_mon < 12
  pub day : t.tm_mday < 32
  pub hour : t.tm_hour < 24
  pub minute : t.tm_min < 60
  pub second : t.tm_sec < 61

two_digits : ℕ → List ℕ
two_digits n = (b'0' + n / 10) ∷ (b'0' + n % 10) ∷ []

two_places-lt : (n : ℕ) → n < 100 → two_places n ≡ two_digits n
unfolding two_places two_digits decimal digit
two_places-lt n h = ground arith

four_digits : ℕ → List ℕ
four_digits n =
    (b'0' + n / 1000) ∷ (b'0' + n / 100 % 10) ∷ (b'0' + n / 10 % 10) ∷ (b'0' + n % 10) ∷ []

decimal-four : (n : ℕ) → 1000 ≤ n → n < 10000 → decimal 10 n ≡ four_digits n
unfolding four_digits decimal digit
decimal-four n lo hi = ground arith

-- The bytes of a date: four digits, then five groups of two.
abbrev spelled : Tm → List ℕ
spelled t =
    four_digits (t.tm_year + 1900)
    ++ (b'/' ∷ two_digits (t.tm_mon + 1))
    ++ (b'/' ∷ two_digits t.tm_mday)
    ++ (b' ' ∷ two_digits t.tm_hour)
    ++ (b':' ∷ two_digits t.tm_min)
    ++ (b':' ∷ two_digits t.tm_sec)

format_time-spelled : (t : Tm) → IsDate t → format_time t ≡ spelled t
unfolding format_time four_digits two_digits
format_time-spelled t d =
    rw
      (
        decimal-four (t.tm_year + 1900) (omega arith) (omega (arith, d.year)),
        two_places-lt (t.tm_mon + 1) (omega (arith, d.month)),
        two_places-lt t.tm_mday (omega (arith, d.day)),
        two_places-lt t.tm_hour (omega (arith, d.hour)),
        two_places-lt t.tm_min (omega (arith, d.minute)),
        two_places-lt t.tm_sec (omega (arith, d.second)),
      )
      refl

-- The bytes are letters and signs of ASCII.
abbrev pub AllAscii : List ℕ → Type 0
AllAscii [] = Unit
AllAscii (c ∷ text) = ((0 < c) × (c < 128)) × AllAscii text

spelled-AllAscii : (t : Tm) → IsDate t → AllAscii (spelled t)
unfolding four_digits two_digits
spelled-AllAscii t d = omega (arith, d.year, d.month, d.day, d.hour, d.minute, d.second)

pub format_time-AllAscii : (t : Tm) → IsDate t → AllAscii (format_time t)
format_time-AllAscii t d = rw (format_time-spelled t d) (spelled-AllAscii t d)

-- A number of two digits.
abbrev two : ℕ → ℕ → ℕ
two a b = (a - b'0') * 10 + (b - b'0')

abbrev pub read_time : List ℕ → Option Tm
read_time
      (y3 ∷ y2 ∷ y1 ∷ y0 ∷ _ ∷ n1 ∷ n0 ∷ _ ∷ d1 ∷ d0 ∷ _ ∷ h1 ∷ h0 ∷ _ ∷ m1 ∷ m0 ∷ _ ∷ s1 ∷ s0
        ∷ []) =
    some (record {
      tm_year = two y3 y2 * 100 + two y1 y0 - 1900;
      tm_mon = two n1 n0 - 1;
      tm_mday = two d1 d0;
      tm_hour = two h1 h0;
      tm_min = two m1 m0;
      tm_sec = two s1 s0;
    })
read_time _ = none

two-digits : (n : ℕ) → two (b'0' + n / 10) (b'0' + n % 10) ≡ n
two-digits n = omega arith

two-year :
    (n : ℕ)
    → n < 8100
    → two (b'0' + (n + 1900) / 1000) (b'0' + (n + 1900) / 100 % 10) * 100
        + two (b'0' + (n + 1900) / 10 % 10) (b'0' + (n + 1900) % 10)
        - 1900
      ≡ n
two-year n h = omega (arith, h)

two-month : (n : ℕ) → two (b'0' + (n + 1) / 10) (b'0' + (n + 1) % 10) - 1 ≡ n
two-month n = omega arith

-- The text of a time of a year up to 9999 has 19 bytes, and the time can be read back from it.
pub read_time-format_time :
    (t : Tm) → IsDate t → (length (format_time t) ≡ 19) × (read_time (format_time t) ≡ some t)
unfolding four_digits two_digits
read_time-format_time t d = rw (format_time-spelled t d) (
  refl,
  rw
      (
        two-year t.tm_year d.year,
        two-month t.tm_mon,
        two-digits t.tm_mday,
        two-digits t.tm_hour,
        two-digits t.tm_min,
        two-digits t.tm_sec,
      )
      refl,
)
