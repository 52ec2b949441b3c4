-- ===== src/Gateway/Timestamp.antt =====
-- final-assignment/shared/os_time.c: the text of a point in time.
pub mod Format
use linux_programing.Common.{
  ℕ, zero, suc, ◌+◌, ◌-◌, ◌/◌, ◌%◌, Option, none, some, List, [], ◌∷◌, ◌++◌, Bool, true, false, ltb,
  if◌then◌else◌, take,
}

-- `struct tm`, as `localtime_r` fills it.
pub record Tm : Type 0 where
  pub tm_year : ℕ
  pub tm_mon : ℕ
  pub tm_mday : ℕ
  pub tm_hour : ℕ
  pub tm_min : ℕ
  pub tm_sec : ℕ

-- `TIME_LENGTH`
abbrev pub time_length : ℕ
time_length = 64

digit : ℕ → ℕ
digit n = b'0' + n

-- `%d` of a number of at most `places` digits; an `int` has at most ten.
decimal : (places : ℕ) → ℕ → List ℕ
unfolding digit
decimal zero n = []
decimal (suc places) n =
    let front = decimal places (n / 10) in
    if ltb n 10 then digit n ∷ [] else front ++ digit (n % 10) ∷ []

-- `%02d`
two_places : ℕ → List ℕ
unfolding decimal
two_places n = if ltb n 10 then b'0' ∷ decimal 10 n else decimal 10 n

-- The text that `snprintf` writes into `TIME_LENGTH` bytes, without its NUL.
unfoldable pub format_time : Tm → List ℕ
unfolding two_places decimal
format_time t = take (time_length - 1) (
    decimal 10 (t.tm_year + 1900)
    ++ (b'/' ∷ two_places (t.tm_mon + 1))
    ++ (b'/' ∷ two_places t.tm_mday)
    ++ (b' ' ∷ two_places t.tm_hour)
    ++ (b':' ∷ two_places t.tm_min)
    ++ (b':' ∷ two_places t.tm_sec))

-- `none`: `calloc` failed, and the program ends.
unfoldable pub get_timestamp : (allocated : Bool) → Tm → Option (List ℕ)
get_timestamp false t = none
get_timestamp true t = some (format_time t)
