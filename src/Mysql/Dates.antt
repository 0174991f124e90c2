-- ===== src/Mysql/Dates.antt =====
-- mysql/utils.go: dates and times, as text and in the binary protocol. A time.Time is the arguments
-- that time.Date was given, or the zero value.
pub mod Format
pub mod Agree
mod Runs
use dbrwproxy.Prelude.{
  ℕ, zero, suc, ◌+◌, ◌-◌, ◌*◌, ◌/◌, ◌%◌, ◌^◌, ◌≡◌, refl, Bytes, codes, List, [], ◌∷◌, ◌++◌, Bool,
  true, false, not, ◌&&◌, ◌||◌, Option, none, some, ltb, leb, ◌==◌, if◌then◌else◌, length, take,
  drop, get_or, get_elem?, bytes_eq,
}
use dbrwproxy.Prelude.Int.{ℤ, pos, negsuc}
use dbrwproxy.Prelude.Decimal.{digits, itoa}
use dbrwproxy.Mysql.Errors.{MysqlError, message, Result, ok, err, panic, ◌>>=◌}
use dbrwproxy.Mysql.Integers.{from_bytes}

pub data Time : Type 0 where
  zero_time : Time
  -- year, month, day, hour, minute, second, nanosecond, location
  date : ℕ → ℕ → ℕ → ℕ → ℕ → ℕ → ℕ → Bytes → Time

-- `zeroDateTime`, which is also the `base` of `parseDateTime`.
abbrev pub zero_date_time : Bytes
zero_date_time = codes "0000-00-00 00:00:00.000000"

-- `bToi`
unfoldable pub b_to_i : ℕ → Result ℕ
b_to_i b = if ltb b b'0' || ltb b'9' b then err (message (codes "not [0-9]")) else ok (b - b'0')

-- The loops of `parseByteYear` and of `parseByteNanoSec`.
unfoldable pub digits_loop : Bytes → ℕ → ℕ → Result ℕ
unfolding b_to_i
digits_loop [] sum digit = ok sum
digits_loop (b ∷ bs) sum digit = b_to_i b >>= λ v. digits_loop bs (sum + v * digit) (digit / 10)

-- `parseByteYear`
abbrev pub parse_byte_year : Bytes → Result ℕ
parse_byte_year b = digits_loop (take 4 b) 0 1000

-- `parseByte2Digits`
unfoldable pub parse_byte2_digits : ℕ → ℕ → Result ℕ
unfolding b_to_i
parse_byte2_digits b1 b2 = do d1 ← b_to_i b1; d2 ← b_to_i b2; ok (d1 * 10 + d2)

-- `parseByteNanoSec`
abbrev pub parse_byte_nano_sec : Bytes → Result ℕ
parse_byte_nano_sec b = digits_loop b 0 100000 >>= λ ns. ok (ns * 1000)

-- The lengths of a text that the code accepts.
unfoldable pub is_length : ℕ → Bool
is_length n = n == 10 || (n == 19 || (leb 21 n && leb n 26))

-- A byte that is required at a place.
unfoldable pub expect : Bytes → ℕ → ℕ → Result Bytes
expect b i c =
    if get_or b i 0 == c
    then ok b
    else err (message (codes "bad value for field: " ++ (get_or b i 0 ∷ [])))

-- Two digits, from a place on.
unfoldable pub two_at : Bytes → ℕ → Result ℕ
unfolding parse_byte2_digits
two_at b i = parse_byte2_digits (get_or b i 0) (get_or b (suc i) 0)

-- `parseDateTime`, where the text is no zero date: the fraction, the time and the date.
unfoldable pub parse_fraction : Bytes → Result ℕ
unfolding expect digits_loop
parse_fraction b =
    if length b == 19 then ok 0 else (do dot ← expect b 19 b'.'; parse_byte_nano_sec (drop 20 b))

unfoldable pub parse_clock : Bytes → (ℕ → ℕ → ℕ → ℕ → Time) → Result Time
unfolding expect two_at parse_fraction
parse_clock b at = if length b == 10 then ok (at 0 0 0 0) else (do
  blank ← expect b 10 b' '
  hour ← two_at b 11
  colon ← expect b 13 b':'
  minute ← two_at b 14
  colon ← expect b 16 b':'
  second ← two_at b 17
  nsec ← parse_fraction b
  ok (at hour minute second nsec))

unfoldable pub parse_date : Bytes → Bytes → Result Time
unfolding digits_loop expect two_at parse_clock
parse_date b loc = do
  year ← parse_byte_year b
  dash ← expect b 4 b'-'
  month ← two_at b 5
  dash ← expect b 7 b'-'
  day ← two_at b 8
  parse_clock b (λ hour minute second nsec. date year month day hour minute second nsec loc)

-- `parseDateTime`
unfoldable pub parse_date_time : Bytes → Bytes → Result Time
unfolding is_length parse_date
parse_date_time b loc =
    if is_length (length b)
    then (if bytes_eq b (take (length b) zero_date_time) then ok zero_time else parse_date b loc)
    else err (message (codes "invalid time bytes: " ++ b))

-- data[i], and an integer from there on.
unfoldable pub byte_at : Bytes → ℕ → Result ℕ
byte_at src i = elim (get_elem? src i) as (λ r. Result ℕ) [ none ↦ panic | some b ↦ ok b ]

unfoldable pub little_endian : ℕ → Bytes → Result ℕ
unfolding from_bytes
little_endian k src = elim (from_bytes k src) as (λ r. Result ℕ) [ none ↦ panic | some v ↦ ok v ]

unfoldable pub binary_date : Bytes → Bytes → (ℕ → ℕ → ℕ → Result Time) → Result Time
unfolding byte_at little_endian
binary_date src loc next = do
  year ← little_endian 2 src
  month ← byte_at src 2
  day ← byte_at src 3
  next year month day

unfoldable pub binary_clock : Bytes → (ℕ → ℕ → ℕ → Result Time) → Result Time
unfolding byte_at
binary_clock src next = do
  hour ← byte_at src 4
  minute ← byte_at src 5
  second ← byte_at src 6
  next hour minute second

-- `parseBinaryDateTime`
unfoldable pub parse_binary_date_time : ℕ → Bytes → Bytes → Result Time
unfolding binary_date binary_clock little_endian
parse_binary_date_time num src loc =
    let only_date = binary_date src loc (λ y m d. ok (date y m d 0 0 0 0 loc)) in
    let seconds =
      binary_date src loc (λ y m d. binary_clock src (λ h mi s. ok (date y m d h mi s 0 loc))) in
    let micros = binary_date src loc (λ y m d.
      binary_clock src (λ h mi s.
        little_endian 4 (drop 7 src) >>= λ us. ok (date y m d h mi s (us * 1000) loc))) in
    if num == 0
    then ok zero_time
    else if num == 4
    then only_date
    else if num == 7
    then seconds
    else if num == 11
    then micros
    else err (message (codes "invalid DATETIME packet length " ++ digits (suc num) num))
