-- ===== src/Mysql/Dates/Format.antt =====
-- mysql/utils.go: the writing of dates and times, from the binary protocol and from a time.Time.
use dbrwproxy.Prelude.{
  ℕ, zero, suc, ◌+◌, ◌-◌, ◌*◌, ◌/◌, ◌%◌, Bytes, codes, List, [], ◌∷◌, ◌++◌, not, ◌&&◌, ◌||◌, ltb,
  leb, ◌==◌, if◌then◌else◌, length, take, drop,
}
use dbrwproxy.Prelude.Int.{ℤ, pos, negsuc, pos_part, ltb_ℤ}
use dbrwproxy.Prelude.Decimal.{digits, itoa}
use dbrwproxy.Mysql.Errors.{MysqlError, message, Result, ok, err, panic, ◌>>=◌}
use dbrwproxy.Mysql.Dates.{zero_date_time, is_length, byte_at, little_endian}

-- digits10[p] and digits01[p], of tables with a hundred entries.
unfoldable pub tens : ℕ → Result ℕ
tens p = if ltb p 100 then ok (b'0' + p / 10) else panic

unfoldable pub ones : ℕ → Result ℕ
ones p = if ltb p 100 then ok (b'0' + p % 10) else panic

-- Bytes that are computed one by one.
unfoldable pub all_of : List (Result ℕ) → Result Bytes
all_of [] = ok []
all_of (r ∷ rs) = r >>= λ b. all_of rs >>= λ bs. ok (b ∷ bs)

-- The digits of the microseconds; the three pairs are bytes.
unfoldable pub micro_digits : ℕ → ℕ → Result Bytes
unfolding all_of tens ones
micro_digits microsecs decimals =
    let p1 = (microsecs / 10000) % 256 in
    let rest = microsecs - 10000 * p1 in
    let p2 = (rest / 100) % 256 in
    let p3 = (rest - 100 * p2) % 256 in
    let all = tens p1 ∷ ones p1 ∷ tens p2 ∷ ones p2 ∷ tens p3 ∷ ones p3 ∷ [] in
    all_of (if leb decimals 5 then take decimals all else all)

-- `appendMicrosecs`
unfoldable pub append_microsecs : Bytes → Bytes → ℤ → Result Bytes
unfolding micro_digits little_endian
append_microsecs dst src (negsuc d) = ok dst
append_microsecs dst src (pos zero) = ok dst
append_microsecs dst [] (pos (suc d)) =
    if leb (suc (suc d)) 7 then ok (dst ++ take (suc (suc d)) (codes ".000000")) else panic
append_microsecs dst (b ∷ bs) (pos (suc d)) = do
  microsecs ← little_endian 4 (b ∷ bs)
  fraction ← micro_digits microsecs (suc d)
  ok (dst ++ (b'.' ∷ fraction))

unfoldable pub illegal : Bytes → ℕ → ℕ → MysqlError
illegal what length n = message (
    codes "illegal DATE"
    ++ ((if ltb 10 length then codes "TIME" else []) ++ (what ++ digits (suc n) n)))

-- The date and the time of `formatBinaryDateTime`.
unfoldable pub date_digits : Bytes → Result Bytes
unfolding all_of tens ones byte_at little_endian
date_digits src = do
  year ← little_endian 2 src
  month ← byte_at src 2
  day ← byte_at src 3
  let century = year / 100
  let p1 = (year - 100 * century) % 256
  all_of (
      tens century
      ∷ ones century
      ∷ tens p1
      ∷ ones p1
      ∷ ok b'-'
      ∷ tens month
      ∷ ones month
      ∷ ok b'-'
      ∷ tens day
      ∷ ones day
      ∷ [])

unfoldable pub clock_digits : Bytes → Result Bytes
unfolding all_of tens ones byte_at
clock_digits src = do
  hour ← byte_at src 4
  minute ← byte_at src 5
  second ← byte_at src 6
  all_of (
      tens hour
      ∷ ones hour
      ∷ ok b':'
      ∷ tens minute
      ∷ ones minute
      ∷ ok b':'
      ∷ tens second
      ∷ ones second
      ∷ [])

-- int(length) - n
abbrev pub decimals_of : ℕ → ℕ → ℤ
decimals_of length n = if leb n length then pos (length - n) else negsuc (n - length - 1)

-- `formatBinaryDateTime`
unfoldable pub format_binary_date_time : Bytes → ℕ → Result Bytes
unfolding is_length date_digits clock_digits append_microsecs
format_binary_date_time [] length' =
    if leb length' 26 then ok (take length' zero_date_time) else panic
format_binary_date_time (b ∷ bs) length' =
    let src = b ∷ bs in
    let n = length src in
    let formatted = (do
      dst ← date_digits src
      if length' == 10
          then ok dst
          else if n == 4
          then ok (dst ++ drop 10 (take length' zero_date_time))
          else (do
            clock ← clock_digits src
            append_microsecs (dst ++ (b' ' ∷ clock)) (drop 7 src) (decimals_of length' 20))) in
    if not (is_length length')
    then err (illegal (codes " length ") length' length')
    else if n == 4 || (n == 7 || n == 11)
    then formatted
    else err (illegal (codes " packet length ") length' n)

-- `formatBinaryTime`
unfoldable pub format_binary_time : Bytes → ℕ → Result Bytes
unfolding all_of tens ones byte_at little_endian append_microsecs
format_binary_time [] length' =
    if leb (11 + length') 26 then ok (drop 11 (take (11 + length') zero_date_time)) else panic
format_binary_time (b ∷ bs) length' =
    let src = b ∷ bs in
    let n = length src in
    let formatted = (do
      days ← little_endian 4 (drop 1 src)
      hour ← byte_at src 5
      minute ← byte_at src 6
      second ← byte_at src 7
      let hours = days * 24 + hour
      shown ← if leb 100 hours then ok (itoa (pos hours)) else all_of (tens hours ∷ ones hours ∷ [])
      rest ← all_of (ok b':' ∷ tens minute ∷ ones minute ∷ ok b':' ∷ tens second ∷ ones second ∷ [])
      append_microsecs ((if b == 1 then b'-' ∷ [] else []) ++ (shown ++ rest)) (drop 8 src)
          (decimals_of length' 9)) in
    if not (length' == 8 || (leb 10 length' && leb length' 15))
    then err (message (codes "illegal TIME length " ++ digits (suc length') length'))
    else if n == 8 || n == 12
    then formatted
    else err (message (codes "invalid TIME packet length " ++ digits (suc n) n))

-- The loop that cuts zeros off at the end.
unfoldable pub trim_zeros : Bytes → Bytes
trim_zeros [] = []
trim_zeros (b ∷ bs) = elim (trim_zeros bs) as (λ r. Bytes) [
  | [] ↦ if b == b'0' then [] else b ∷ []
  | c ∷ cs ↦ b ∷ c ∷ cs
]

-- The nine digits of a nanosecond.
unfoldable pub nano_digits : ℕ → Result Bytes
unfolding all_of tens ones
nano_digits nsec =
    let n8 = nsec / 100000000 in
    let n6 = nsec / 1000000 % 100 in
    let n4 = nsec / 10000 % 100 in
    let n2 = nsec / 100 % 100 in
    let n1 = nsec % 100 in
    all_of
      (ones n8 ∷ tens n6 ∷ ones n6 ∷ tens n4 ∷ ones n4 ∷ tens n2 ∷ ones n2 ∷ tens n1 ∷ ones n1 ∷ [])

-- What `appendDateTime` appends, of what t.Date, t.Clock and t.Nanosecond return.
unfoldable pub date_time_text : ℤ → ℕ → ℕ → ℕ → ℕ → ℕ → ℕ → Result Bytes
unfolding all_of tens ones nano_digits trim_zeros
date_time_text year month day hour minute sec nsec =
    let y = pos_part year in
    let dated = all_of (
      tens (y / 100)
      ∷ ones (y / 100)
      ∷ tens (y % 100)
      ∷ ones (y % 100)
      ∷ ok b'-'
      ∷ tens month
      ∷ ones month
      ∷ ok b'-'
      ∷ tens day
      ∷ ones day
      ∷ []) in
    let clocked = all_of (
      ok b' '
      ∷ tens hour
      ∷ ones hour
      ∷ ok b':'
      ∷ tens minute
      ∷ ones minute
      ∷ ok b':'
      ∷ tens sec
      ∷ ones sec
      ∷ []) in
    let timed = λ (text : Bytes). (do
      clock ← clocked
      if nsec == 0 then ok (text ++ clock) else (do
        nanos ← nano_digits nsec
        ok (trim_zeros (text ++ (clock ++ (b'.' ∷ nanos)))))) in
    if ltb_ℤ year (pos 1) || ltb_ℤ (pos 9999) year
    then err (message (codes "year is not in the range [1, 9999]: " ++ itoa year))
    else dated >>= λ text.
        if hour == 0 && (minute == 0 && (sec == 0 && nsec == 0)) then ok text else timed text

-- `appendDateTime`
unfoldable pub append_date_time : Bytes → ℤ → ℕ → ℕ → ℕ → ℕ → ℕ → ℕ → Result Bytes
unfolding date_time_text
append_date_time buf year month day hour minute sec nsec =
    date_time_text year month day hour minute sec nsec >>= λ text. ok (buf ++ text)
