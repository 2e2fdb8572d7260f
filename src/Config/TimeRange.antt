-- ===== src/Config/TimeRange.antt =====
-- internal/config/config.go: daily time ranges, "HH:MM-HH:MM" (ParseTimeRange, parseMinutes,
-- IsInDisabledTimeRange), with strconv.Atoi of the standard library.
-- Errors carry no message: `none` is the error return.
pub mod Windows
pub mod Format
use oh_my_api.Base.{
  ℕ, suc, ◌+◌, ◌-◌, ◌*◌, Bool, true, false, not, ◌&&◌, ◌||◌, Option, none, some, List, [], ◌∷◌, ltb,
  leb, ◌==◌, if◌then◌else◌, ◌>>=◌, Text, trim_space, split_first, ℤ, pos, negsuc, ltb_ℤ,
}

pub record DisabledTimeRange : Type 0 where
  pub start : ℕ
  pub stop : ℕ

abbrev is_digit : ℕ → Bool
is_digit c = leb b'0' c && leb c b'9'

-- The digits of Atoi, most significant first.
unfoldable pub digits_from : ℕ → Text → Option ℕ
digits_from acc [] = some acc
digits_from acc (c ∷ s) =
    let rest = digits_from (acc * 10 + (c - b'0')) s in if is_digit c then rest else none

unfoldable pub unsigned : Text → Option ℕ
unfolding digits_from
unsigned [] = none
unsigned (c ∷ s) = digits_from 0 (c ∷ s)

abbrev int_limit : ℕ
int_limit = 9223372036854775808

-- A number out of the range of a 64-bit int is an error.
abbrev signed : Bool → Option ℕ → Option ℤ
signed minus none = none
signed true (some n) =
    if ltb int_limit n then none else if n == 0 then some (pos 0) else some (negsuc (n - 1))
signed false (some n) = if ltb n int_limit then some (pos n) else none

-- strconv.Atoi
unfoldable pub atoi : Text → Option ℤ
unfolding unsigned
atoi [] = none
atoi (c ∷ s) =
    if c == b'-'
    then signed true (unsigned s)
    else if c == b'+'
    then signed false (unsigned s)
    else signed false (unsigned (c ∷ s))

-- The range checks of parseMinutes on the hour and the minute.
unfoldable pub minutes_of : ℤ → ℤ → Option ℕ
minutes_of (negsuc _) m = none
minutes_of (pos h) (negsuc _) = none
minutes_of (pos h) (pos m) =
    if ltb 24 h
    then none
    else if ltb 59 m
    then none
    else if (h == 24) && not (m == 0)
    then none
    else some (h * 60 + m)

unfoldable pub parse_minutes : Text → Option ℕ
parse_minutes raw = do
  parts ← split_first b':' raw
  h ← atoi parts.0
  m ← atoi parts.1
  minutes_of h m

unfoldable pub parse_time_range : Text → Option DisabledTimeRange
parse_time_range raw = do
  parts ← split_first b'-' raw
  start ← parse_minutes (trim_space parts.0)
  stop ← parse_minutes (trim_space parts.1)
  if start == stop then none else some (record { start = start; stop = stop })

-- One range, at a minute of the day.
unfoldable pub in_range : ℕ → DisabledTimeRange → Bool
in_range minute r =
    if ltb r.start r.stop
    then leb r.start minute && ltb minute r.stop
    else leb r.start minute || ltb minute r.stop

-- IsInDisabledTimeRange at `now.Hour()*60 + now.Minute()`
unfoldable pub is_in_disabled_time_range : ℕ → List DisabledTimeRange → Bool
unfolding in_range
is_in_disabled_time_range minute [] = false
is_in_disabled_time_range minute (r ∷ rs) = in_range minute r || is_in_disabled_time_range minute rs
