-- ===== src/Config/TimeRange/Format.antt =====
-- The parser reads back what "HH:MM-HH:MM" says.
use oh_my_api.Base.{
  ℕ, ◌+◌, ◌/◌, ◌%◌, ◌≤◌, ◌<◌, ◌≡◌, ◌≢◌, false, some, [], ◌∷◌, ◌++◌, arith, Text, pos, split_first,
  trim_space, is_space,
}
use oh_my_api.Config.TimeRange.{unsigned, minutes_of, parse_minutes, parse_time_range, atoi}

-- A number below 100 as two digits, and a minute of the day as hour and minute.
abbrev two_digits : ℕ → Text
two_digits n = (b'0' + n / 10) ∷ (b'0' + n % 10) ∷ []

abbrev pub clock : ℕ → Text
clock n = two_digits (n / 60) ++ (b':' ∷ two_digits (n % 60))

unsigned-two_digits : (n : ℕ) → n < 100 → unsigned (two_digits n) ≡ some n
unfolding unsigned
unsigned-two_digits n h = ground arith

atoi-two_digits : (n : ℕ) → n < 100 → atoi (two_digits n) ≡ some (pos n)
unfolding atoi
atoi-two_digits n h = ground (arith, unsigned-two_digits n h)

split-clock :
    (n : ℕ)
    → n ≤ 1440
    → split_first b':' (clock n) ≡ some (two_digits (n / 60), two_digits (n % 60))
unfolding split_first
split-clock n h = ground arith

minutes_of_clock : (n : ℕ) → n ≤ 1440 → minutes_of (pos (n / 60)) (pos (n % 60)) ≡ some n
unfolding minutes_of
minutes_of_clock n h = ground arith

parse_minutes-clock : (n : ℕ) → n ≤ 1440 → parse_minutes (clock n) ≡ some n
unfolding parse_minutes
parse_minutes-clock n h =
    rw
      (
        parse_minutes,
        split-clock n h,
        atoi-two_digits (n / 60) (omega arith),
        atoi-two_digits (n % 60) (omega arith),
      )
      (minutes_of_clock n h)

digit_not_space : (d : ℕ) → d < 10 → is_space (b'0' + d) ≡ false
digit_not_space d h = ground arith

trim_space-clock : (n : ℕ) → n ≤ 1440 → trim_space (clock n) ≡ clock n
unfolding trim_space
trim_space-clock n h =
    rw (digit_not_space (n / 60 / 10) (omega arith), digit_not_space (n % 60 % 10) (omega arith))

split-range :
    (a b : ℕ) → a ≤ 1440 → split_first b'-' (clock a ++ (b'-' ∷ clock b)) ≡ some (clock a, clock b)
unfolding split_first
split-range a b h = ground arith

-- Two different times of the day, 24:00 included, are read back from "HH:MM-HH:MM".
pub parse_time_range-clock :
    (a b : ℕ)
    → a ≤ 1440
    → b ≤ 1440
    → a ≢ b
    → parse_time_range (clock a ++ (b'-' ∷ clock b)) ≡ some (record { start = a; stop = b })
unfolding parse_time_range
parse_time_range-clock a b ha hb ne = ground (
  arith,
  split-range a b ha,
  trim_space-clock a ha,
  trim_space-clock b hb,
  parse_minutes-clock a ha,
  parse_minutes-clock b hb,
)
