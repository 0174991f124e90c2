-- ===== src/Mysql/LengthEncoded.antt =====
-- mysql/utils.go: length-encoded integers and strings.
pub mod RoundTrip
pub mod Bounds
use mathlib.Core.Option
use dbrwproxy.Prelude.{
  ℕ, ◌+◌, ◌-◌, ◌*◌, ◌/◌, ◌%◌, ◌^◌, Bytes, List, [], ◌∷◌, ◌++◌, Bool, true, false, Option, none,
  some, ltb, leb, ◌==◌, ◌&&◌, if◌then◌else◌, length, take, drop,
}
use dbrwproxy.Prelude.Int.{ℤ, pos, negsuc, int_add, leb_ℤ}
use dbrwproxy.Mysql.Errors.{Result, ok, err, panic, eof, ◌>>=◌}
use dbrwproxy.Mysql.Integers.{to_bytes, from_bytes}

-- The number behind the first byte, the flag for NULL, and the bytes read.
abbrev pub LengthInteger : Type 0
LengthInteger = ℕ × Bool × ℕ

-- A number of `k` bytes; an index out of range panics.
behind : ℕ → Option ℕ → Result LengthInteger
behind k none = panic
behind k (some num) = ok (num, false, k + 1)

unfoldable pub read_length_encoded_integer : Bytes → Result LengthInteger
unfolding behind
read_length_encoded_integer [] = ok (0, true, 1)
read_length_encoded_integer (c ∷ b) =
    if c == 0xfb
    then ok (0, true, 1)
    else if c == 0xfc
    then behind 2 (from_bytes 2 b)
    else if c == 0xfd
    then behind 3 (from_bytes 3 b)
    else if c == 0xfe
    then behind 8 (from_bytes 8 b)
    else ok (c, false, 1)

-- int(num)
abbrev pub to_int : ℕ → ℤ
to_int num = if ltb num (2 ^ 63) then pos num else negsuc (2 ^ 64 - 1 - num)

-- b[lo:hi]
abbrev pub slice : Bytes → ℕ → ℤ → Option Bytes
slice b lo (pos hi) =
    if leb lo hi && leb hi (length b) then some (take (hi - lo) (drop lo b)) else none
slice b lo (negsuc n) = none

abbrev pub sliced : ℤ → Option Bytes → Result (Bytes × Bool × ℤ)
sliced n none = panic
sliced n (some s) = ok (s, false, n)

-- `b[n:n]` is empty: whether it stays within the slice's capacity is not modelled.
string_of : Bytes → LengthInteger → Result (Bytes × Bool × ℤ)
string_of b (num, is_null, n) =
    let end = int_add (pos n) (to_int num) in
    if ltb num 1
    then ok ([], is_null, pos n)
    else if leb_ℤ end (pos (length b))
    then sliced end (slice b n end)
    else err eof

unfoldable pub read_length_encoded_string : Bytes → Result (Bytes × Bool × ℤ)
unfolding string_of
read_length_encoded_string b = read_length_encoded_integer b >>= string_of b

skip_of : Bytes → LengthInteger → Result ℤ
skip_of b (num, is_null, n) =
    let end = int_add (pos n) (to_int num) in
    if ltb num 1 then ok (pos n) else if leb_ℤ end (pos (length b)) then ok end else err eof

unfoldable pub skip_length_encoded_string : Bytes → Result ℤ
unfolding skip_of
skip_length_encoded_string b = read_length_encoded_integer b >>= skip_of b

unfoldable pub append_length_encoded_integer : Bytes → ℕ → Bytes
append_length_encoded_integer b n =
    if leb n 250
    then b ++ (n % 256 ∷ [])
    else if leb n 0xffff
    then b ++ (0xfc ∷ to_bytes 2 n)
    else if leb n 0xffffff
    then b ++ (0xfd ∷ to_bytes 3 n)
    else b ++ (0xfe ∷ to_bytes 8 n)

unfoldable pub append_length_encoded_string : Bytes → Bytes → Bytes
append_length_encoded_string b s = append_length_encoded_integer b (length s) ++ s
