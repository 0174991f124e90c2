-- ===== src/Mysql/Dates/Agree.antt =====
-- The two ways to a time.Time in mysql/utils.go: `parseBinaryDateTime`, and `parseDateTime` of what
-- `formatBinaryDateTime` writes.
use dbrwproxy.Prelude.{
  ℕ, ◌+◌, ◌-◌, ◌*◌, ◌/◌, ◌%◌, ◌<◌, ◌≡◌, refl, ap, ◌∙◌, Bytes, [], ◌∷◌, false, length, take, drop,
  get_or, bytes_eq, bytes_eq→eq, lt→ltb, Bool-cases, inl, inr, arith, ap₂,
}
use dbrwproxy.Mysql.Errors.{ok}
use dbrwproxy.Mysql.Dates.{
  date, zero_date_time, b_to_i, digits_loop, parse_byte2_digits, expect, two_at, parse_fraction,
  parse_clock, parse_date, parse_date_time, parse_binary_date_time, byte_at, little_endian,
  is_length, binary_date, binary_clock,
}
use dbrwproxy.Mysql.Dates.Format.{
  tens, ones, all_of, micro_digits, append_microsecs, date_digits, clock_digits,
  format_binary_date_time,
}

b_to_i-digit : (d : ℕ) → d < 10 → b_to_i (b'0' + d) ≡ ok d
unfolding b_to_i
b_to_i-digit d h = ground arith

tens-ok : (p : ℕ) → p < 100 → tens p ≡ ok (b'0' + p / 10)
unfolding tens
tens-ok p h = rw (lt→ltb p 100 h) refl

ones-ok : (p : ℕ) → p < 100 → ones p ≡ ok (b'0' + p % 10)
unfolding ones
ones-ok p h = rw (lt→ltb p 100 h) refl

two_digits : (p : ℕ) → p < 100 → parse_byte2_digits (b'0' + p / 10) (b'0' + p % 10) ≡ ok p
unfolding parse_byte2_digits
two_digits p h =
    rw
      (parse_byte2_digits, b_to_i-digit (p / 10) (omega arith), b_to_i-digit (p % 10) (omega arith))
      (ap ok (omega arith))

four_digits :
    (c p : ℕ)
    → c < 100
    → p < 100
    → digits_loop
        ((b'0' + c / 10) ∷ (b'0' + c % 10) ∷ (b'0' + p / 10) ∷ (b'0' + p % 10) ∷ [])
        0
        1000
      ≡ ok (c * 100 + p)
unfolding digits_loop
four_digits c p hc hp =
    rw
      (
        b_to_i-digit (c / 10) (omega arith),
        b_to_i-digit (c % 10) (omega arith),
        b_to_i-digit (p / 10) (omega arith),
        b_to_i-digit (p % 10) (omega arith),
      )
      (ap ok (omega arith))

six_digits :
    (a b c : ℕ)
    → a < 100
    → b < 100
    → c < 100
    → digits_loop
        ((b'0' + a / 10)
          ∷ (b'0' + a % 10)
          ∷ (b'0' + b / 10)
          ∷ (b'0' + b % 10)
          ∷ (b'0' + c / 10)
          ∷ (b'0' + c % 10)
          ∷ [])
        0
        100000
      ≡ ok (a * 10000 + b * 100 + c)
unfolding digits_loop
six_digits a b c ha hb hc =
    rw
      (
        b_to_i-digit (a / 10) (omega arith),
        b_to_i-digit (a % 10) (omega arith),
        b_to_i-digit (b / 10) (omega arith),
        b_to_i-digit (b % 10) (omega arith),
        b_to_i-digit (c / 10) (omega arith),
        b_to_i-digit (c % 10) (omega arith),
      )
      (ap ok (omega arith))

-- A text of 26 bytes: the year in two pairs, and the microseconds in three.
abbrev text : ℕ → ℕ → ℕ → ℕ → ℕ → ℕ → ℕ → ℕ → ℕ → ℕ → Bytes
text c p m d h i s u v w =
    (b'0' + c / 10)
    ∷ (b'0' + c % 10)
    ∷ (b'0' + p / 10)
    ∷ (b'0' + p % 10)
    ∷ b'-'
    ∷ (b'0' + m / 10)
    ∷ (b'0' + m % 10)
    ∷ b'-'
    ∷ (b'0' + d / 10)
    ∷ (b'0' + d % 10)
    ∷ b' '
    ∷ (b'0' + h / 10)
    ∷ (b'0' + h % 10)
    ∷ b':'
    ∷ (b'0' + i / 10)
    ∷ (b'0' + i % 10)
    ∷ b':'
    ∷ (b'0' + s / 10)
    ∷ (b'0' + s % 10)
    ∷ b'.'
    ∷ (b'0' + u / 10)
    ∷ (b'0' + u % 10)
    ∷ (b'0' + v / 10)
    ∷ (b'0' + v % 10)
    ∷ (b'0' + w / 10)
    ∷ (b'0' + w % 10)
    ∷ []

module _ (c p m d h i s u v w : ℕ) (hc : c < 100) (hp : p < 100) (hm : m < 100) (hd : d < 100)
    (hh : h < 100) (hi : i < 100) (hs : s < 100) (hu : u < 100) (hv : v < 100) (hw : w < 100)
    (month : 0 < m) (loc : Bytes) where
  not_zero : bytes_eq (text c p m d h i s u v w) zero_date_time ≡ false
  not_zero = elim (Bool-cases (bytes_eq (text c p m d h i s u v w) zero_date_time)) [
    | inl e ↦
        let same = bytes_eq→eq (text c p m d h i s u v w) zero_date_time e in
        let high : b'0' + m / 10 ≡ b'0' = ap (λ t. get_or t 5 0) same in
        let low : b'0' + m % 10 ≡ b'0' = ap (λ t. get_or t 6 0) same in absurd (omega arith)
    | inr e ↦ e
  ]

  parse_date_time-text :
      parse_date_time (text c p m d h i s u v w) loc
      ≡ ok (date (c * 100 + p) m d h i s ((u * 10000 + v * 100 + w) * 1000) loc)
  unfolding parse_date_time parse_date two_at parse_clock expect parse_fraction
  parse_date_time-text =
      rw
        (
          not_zero,
          four_digits c p hc hp,
          two_digits m hm,
          two_digits d hd,
          two_digits h hh,
          two_digits i hi,
          two_digits s hs,
          six_digits u v w hu hv hw,
        )
        refl

-- The pairs of digits of a year and of microseconds, as the code computes them.
abbrev year_low : ℕ → ℕ
year_low y = (y - 100 * (y / 100)) % 256

abbrev micro_high : ℕ → ℕ
micro_high us = us / 10000 % 256

abbrev micro_mid : ℕ → ℕ
micro_mid us = (us - 10000 * micro_high us) / 100 % 256

abbrev micro_low : ℕ → ℕ
micro_low us = (us - 10000 * micro_high us - 100 * micro_mid us) % 256

abbrev pub year_of : ℕ → ℕ → ℕ
year_of y0 y1 = y0 + 256 * (y1 + 256 * 0)

abbrev pub micros_of : ℕ → ℕ → ℕ → ℕ → ℕ
micros_of u0 u1 u2 u3 = u0 + 256 * (u1 + 256 * (u2 + 256 * (u3 + 256 * 0)))

-- The date that four bytes stand for is one that the text can hold.
abbrev pub IsDay : ℕ → ℕ → ℕ → Type 0
IsDay y m d = (y < 10000) × ((0 < m) × ((m < 100) × (d < 100)))

abbrev pub IsClock : ℕ → ℕ → ℕ → Type 0
IsClock h i s = (h < 100) × ((i < 100) × (s < 100))

date_digits-ok :
    (y0 y1 m d : ℕ) (rest : Bytes)
    → IsDay (year_of y0 y1) m d
    → date_digits (y0 ∷ y1 ∷ m ∷ d ∷ rest)
      ≡ ok (take 10 (text (year_of y0 y1 / 100) (year_low (year_of y0 y1)) m d 0 0 0 0 0 0))
unfolding date_digits byte_at all_of little_endian
date_digits-ok y0 y1 m d rest (hy, (hm0, (hm, hd))) =
    rw
      (
        tens-ok (year_of y0 y1 / 100) (omega arith),
        ones-ok (year_of y0 y1 / 100) (omega arith),
        tens-ok (year_low (year_of y0 y1)) (omega arith),
        ones-ok (year_low (year_of y0 y1)) (omega arith),
        tens-ok m hm,
        ones-ok m hm,
        tens-ok d hd,
        ones-ok d hd,
      )
      refl

clock_digits-ok :
    (y0 y1 m d h i s : ℕ) (rest : Bytes)
    → IsClock h i s
    → clock_digits (y0 ∷ y1 ∷ m ∷ d ∷ h ∷ i ∷ s ∷ rest)
      ≡ ok (take 8 (drop 11 (text 0 0 0 0 h i s 0 0 0)))
unfolding clock_digits byte_at all_of
clock_digits-ok y0 y1 m d h i s rest (hh, (hi, hs)) =
    rw (tens-ok h hh, ones-ok h hh, tens-ok i hi, ones-ok i hi, tens-ok s hs, ones-ok s hs) refl

micro_digits-ok :
    (us : ℕ)
    → us < 1000000
    → micro_digits us 6
      ≡ ok (drop 20 (text 0 0 0 0 0 0 0 (micro_high us) (micro_mid us) (micro_low us)))
unfolding micro_digits all_of
micro_digits-ok us h =
    rw
      (
        tens-ok (micro_high us) (omega arith),
        ones-ok (micro_high us) (omega arith),
        tens-ok (micro_mid us) (omega arith),
        ones-ok (micro_mid us) (omega arith),
        tens-ok (micro_low us) (omega arith),
        ones-ok (micro_low us) (omega arith),
      )
      refl

-- The bytes of a date, of a date with a time, and of one with microseconds.
pub data IsDate : Bytes → Type 0 where
  dated : (y0 y1 m d : ℕ) → IsDay (year_of y0 y1) m d → IsDate (y0 ∷ y1 ∷ m ∷ d ∷ [])
  timed :
      (y0 y1 m d h i s : ℕ)
      → IsDay (year_of y0 y1) m d
      → IsClock h i s
      → IsDate (y0 ∷ y1 ∷ m ∷ d ∷ h ∷ i ∷ s ∷ [])
  measured :
      (y0 y1 m d h i s u0 u1 u2 u3 : ℕ)
      → IsDay (year_of y0 y1) m d
      → IsClock h i s
      → micros_of u0 u1 u2 u3 < 1000000
      → IsDate (y0 ∷ y1 ∷ m ∷ d ∷ h ∷ i ∷ s ∷ u0 ∷ u1 ∷ u2 ∷ u3 ∷ [])

abbrev whole : ℕ → ℕ → ℕ → ℕ → ℕ → ℕ → ℕ → Bytes
whole y m d h i s us =
    text (y / 100) (year_low y) m d h i s (micro_high us) (micro_mid us) (micro_low us)

whole_parsed :
    (y m d h i s us : ℕ) (loc : Bytes)
    → IsDay y m d
    → IsClock h i s
    → us < 1000000
    → parse_date_time (whole y m d h i s us) loc ≡ ok (date y m d h i s (us * 1000) loc)
whole_parsed y m d h i s us loc (hy, (hm0, (hm, hd))) (hh, (hi, hs)) hu =
    let year : y / 100 * 100 + year_low y ≡ y = omega arith in
    let micros : micro_high us * 10000 + micro_mid us * 100 + micro_low us ≡ us = omega arith in
    parse_date_time-text (y / 100) (year_low y) m d h i s (micro_high us) (micro_mid us)
      (micro_low us) (omega arith) (omega arith) hm hd hh hi hs (omega arith) (omega arith)
      (omega arith) hm0 loc
    ∙ ap₂ (λ a b. ok (date a m d h i s (b * 1000) loc)) year micros

-- For the bytes of a date in the binary protocol whose fields two digits can hold, and a year four,
-- and whose month is not 0: `formatBinaryDateTime` writes a text for the length 26, and what
-- `parseDateTime` makes of that text is what `parseBinaryDateTime` makes of the bytes.
pub parse_date_time-format_binary_date_time :
    (src loc : Bytes)
    → IsDate src
    → (written : Bytes) × (format_binary_date_time src 26 ≡ ok written)
      × (parse_date_time written loc ≡ parse_binary_date_time (length src) src loc)
unfolding format_binary_date_time parse_binary_date_time binary_date binary_clock byte_at
    append_microsecs is_length little_endian
parse_date_time-format_binary_date_time _ loc (dated y0 y1 m d hd) =
    let year = year_of y0 y1 in
    (
      whole year m d 0 0 0 0,
      rw (date_digits-ok y0 y1 m d [] hd) refl,
      whole_parsed year m d 0 0 0 0 loc hd (omega arith) (omega arith),
    )
parse_date_time-format_binary_date_time _ loc (timed y0 y1 m d h i s hd hc) =
    let year = year_of y0 y1 in
    (
      whole year m d h i s 0,
      rw (date_digits-ok y0 y1 m d (h ∷ i ∷ s ∷ []) hd, clock_digits-ok y0 y1 m d h i s [] hc) refl,
      whole_parsed year m d h i s 0 loc hd hc (omega arith),
    )
parse_date_time-format_binary_date_time _ loc (measured y0 y1 m d h i s u0 u1 u2 u3 hd hc hu) =
    let year = year_of y0 y1 in
    let micros = micros_of u0 u1 u2 u3 in
    let rest = u0 ∷ u1 ∷ u2 ∷ u3 ∷ [] in
    (
      whole year m d h i s micros,
      rw
          (
            date_digits-ok y0 y1 m d (h ∷ i ∷ s ∷ rest) hd,
            clock_digits-ok y0 y1 m d h i s rest hc,
            micro_digits-ok micros hu,
          )
          refl,
      whole_parsed year m d h i s micros loc hd hc hu,
    )
