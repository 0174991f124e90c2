-- ===== src/Mysql/Interpolate.antt =====
-- mysql/connection.go: `interpolateParams`, which puts the arguments of a query into its text.
-- What strconv.AppendFloat prints is part of the argument, as is what v.In(mc.cfg.Loc) is made of.
pub mod Splice
mod Runs
use dbrwproxy.Prelude.{
  ℕ, zero, suc, ◌+◌, ◌/◌, ◌%◌, Bytes, codes, List, [], ◌∷◌, ◌++◌, Bool, true, false, not, ◌&&◌,
  Option, none, some, ltb, ◌==◌, if◌then◌else◌, length, take, drop, index_byte,
}
use dbrwproxy.Prelude.Int.{ℤ, pos, ltb_ℤ}
use dbrwproxy.Prelude.Decimal.{itoa}
use dbrwproxy.Mysql.Errors.{skip, invalid_conn, Result, ok, err, panic, ◌>>=◌}
use dbrwproxy.Mysql.Escape.{
  escape_bytes_backslash, escape_string_backslash, escape_bytes_quotes, escape_string_quotes,
}
use dbrwproxy.Mysql.Buffer.{Buffer, take_complete_buffer}
use dbrwproxy.Mysql.Dates.Format.{append_date_time}

-- A time.Time that is not zero: year, month, day, hour, minute, second, nanosecond.
pub record Moment : Type 0 where
  pub year : ℤ
  pub month : ℕ
  pub day : ℕ
  pub hour : ℕ
  pub minute : ℕ
  pub second : ℕ
  pub nanosecond : ℕ

-- A driver.Value by its dynamic type.
pub data Argument : Type 0 where
  null : Argument
  int : ℤ → Argument
  uint : ℕ → Argument
  float : Bytes → Argument
  boolean : Bool → Argument
  moment : Option Moment → Argument
  json : Bytes → Argument
  -- A []byte, which may be nil.
  bytes : Option Bytes → Argument
  text : Bytes → Argument
  other : Argument

-- mc.status & statusNoBackslashEscapes != 0
unfoldable pub no_backslash_escapes : ℕ → Bool
no_backslash_escapes status = status / 512 % 2 == 1

-- An escaping function's slice; a write out of range is a panic.
abbrev pub sliced : Option Bytes → Result Bytes
sliced none = panic
sliced (some buf) = ok buf

-- strings.Count(query, "?")
unfoldable pub count_marks : Bytes → ℕ
count_marks [] = 0
count_marks (b ∷ bs) = let rest = count_marks bs in if b == b'?' then suc rest else rest

abbrev pub is_null : Argument → Bool
is_null null = true
is_null a = false

-- The size is not looked at behind a nil.
unfoldable pub sized : Argument → ℤ → Bytes → Result Bytes
sized argument max_allowed_packet buf =
    if not (is_null argument) && ltb_ℤ max_allowed_packet (pos (length buf + 4))
    then err skip
    else ok buf

abbrev pub all_taken : Bytes × List Argument → Result Bytes
all_taken (buf, []) = ok buf
all_taken (buf, a ∷ args) = err skip

-- `spare` is what stands behind a slice, up to its capacity.
module _ (spare : Bytes → Bytes) (status : ℕ) where
  unfoldable pub escape_bytes : Bytes → Bytes → Result Bytes
  unfolding escape_bytes_backslash escape_bytes_quotes no_backslash_escapes
  escape_bytes buf v =
      if no_backslash_escapes status
      then sliced (escape_bytes_quotes buf (spare buf) v)
      else sliced (escape_bytes_backslash buf (spare buf) v)

  unfoldable pub escape_string : Bytes → Bytes → Result Bytes
  unfolding escape_string_backslash escape_string_quotes no_backslash_escapes
  escape_string buf v =
      if no_backslash_escapes status
      then sliced (escape_string_quotes buf (spare buf) v)
      else sliced (escape_string_backslash buf (spare buf) v)

  -- The `switch` on the type of an argument.
  unfoldable pub append_argument : Argument → Bytes → Result Bytes
  unfolding escape_bytes escape_string append_date_time
  append_argument null buf = ok (buf ++ codes "NULL")
  append_argument (int v) buf = ok (buf ++ itoa v)
  append_argument (uint v) buf = ok (buf ++ itoa (pos v))
  append_argument (float printed) buf = ok (buf ++ printed)
  append_argument (boolean v) buf = ok (buf ++ (if v then codes "1" else codes "0"))
  append_argument (moment none) buf = ok (buf ++ codes "'0000-00-00'")
  append_argument (moment (some v)) buf = do
    written ←
        append_date_time (buf ++ codes "'") v.year v.month v.day v.hour v.minute v.second
          v.nanosecond
    ok (written ++ codes "'")
  append_argument (json v) buf = do
    written ← escape_bytes (buf ++ codes "'") v
    ok (written ++ codes "'")
  append_argument (bytes none) buf = ok (buf ++ codes "NULL")
  append_argument (bytes (some v)) buf = do
    written ← escape_bytes (buf ++ codes "_binary'") v
    ok (written ++ codes "'")
  append_argument (text v) buf = do
    written ← escape_string (buf ++ codes "'") v
    ok (written ++ codes "'")
  append_argument other buf = err skip

  -- The loop: the rest of the query, the arguments left, and the buffer. A round takes a '?'.
  unfoldable pub interpolate_loop :
      ℤ → ℕ → Bytes → List Argument → Bytes → Result (Bytes × List Argument)
  unfolding append_argument sized
  interpolate_loop max_allowed_packet zero query args buf = panic
  interpolate_loop max_allowed_packet (suc fuel) query args buf =
      let next = interpolate_loop max_allowed_packet fuel in
      elim (index_byte query b'?') as (λ r. Result (Bytes × List Argument)) [
        | none ↦ ok (buf ++ query, args)
        | some q ↦ elim args as (λ r. Result (Bytes × List Argument)) [
          | [] ↦ panic
          | arg ∷ later ↦ append_argument arg (buf ++ take q query) >>= λ written.
              sized arg max_allowed_packet written >>= λ fitting.
              next (drop (suc q) query) later fitting
        ]
      ]

  -- `interpolateParams`
  unfoldable pub interpolate_params : ℤ → Buffer → Bytes → List Argument → Result Bytes
  unfolding interpolate_loop count_marks take_complete_buffer
  interpolate_params max_allowed_packet b query args =
      let run =
        interpolate_loop max_allowed_packet (suc (length query)) query args [] >>= all_taken in
      if count_marks query == length args
      then elim (take_complete_buffer b) as (λ r. Result Bytes) [
        | none ↦ err invalid_conn
        | some taken ↦ run
      ]
      else err skip
