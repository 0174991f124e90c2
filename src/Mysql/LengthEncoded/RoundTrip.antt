-- ===== src/Mysql/LengthEncoded/RoundTrip.antt =====
-- Writing and reading the length-encoded integers and strings of mysql/utils.go.
use dbrwproxy.Prelude.{
  ℕ, ◌+◌, ◌-◌, ◌^◌, ◌≤◌, ◌<◌, ◌≡◌, refl, ap, ◌∙◌, Bytes, [], ◌∷◌, ◌++◌, append_assoc, false, length,
  length-append, take, drop, arith, take-append_length, drop-append_length,
}
use native.Mathlib.Nat.{add-zero}
use dbrwproxy.Prelude.Int.{pos, int_add_pos}
use dbrwproxy.Mysql.Errors.{ok}
use dbrwproxy.Mysql.Integers.{from_bytes-to_bytes, length-to_bytes}
use dbrwproxy.Mysql.LengthEncoded.{
  read_length_encoded_integer, behind, append_length_encoded_integer, append_length_encoded_string,
  read_length_encoded_string, string_of,
}

-- The encoding of a number, and its length.
unfoldable pub encoded : ℕ → Bytes
encoded n = append_length_encoded_integer [] n

append-encoded : (b : Bytes) (n : ℕ) → append_length_encoded_integer b n ≡ b ++ encoded n
unfolding append_length_encoded_integer encoded
append-encoded b n = ground arith

-- A uint64 that `appendLengthEncodedInteger` puts behind any bytes is read back from there, with
-- whatever follows left unread: the number, no NULL, and the count of the bytes it took.
pub read-append_integer :
    (b rest : Bytes) (n : ℕ)
    → n < 2 ^ 64
    → (append_length_encoded_integer b n ≡ b ++ encoded n)
      × (read_length_encoded_integer (encoded n ++ rest) ≡ ok (n, false, length (encoded n)))
unfolding read_length_encoded_integer behind encoded append_length_encoded_integer
read-append_integer b rest n h = (
  append-encoded b n,
  ground (
    arith,
    from_bytes-to_bytes 2 n rest,
    from_bytes-to_bytes 3 n rest,
    from_bytes-to_bytes 8 n rest,
    length-to_bytes 2 n,
    length-to_bytes 3 n,
    length-to_bytes 8 n,
  ),
)

string_at :
    (e s rest : Bytes)
    → 0 < length s
    → length e + length s < 2 ^ 63
    → string_of (e ++ (s ++ rest)) (length s, false, length e)
      ≡ ok (s, false, pos (length e + length s))
unfolding string_of
string_at e s rest some_bytes fits =
    let cut : take (length e + length s - length e) (drop (length e) (e ++ (s ++ rest))) ≡ s =
      rw drop-append_length
        (ap (λ n. take n (s ++ rest)) (omega arith) ∙ take-append_length s rest) in
    ground (
      arith,
      int_add_pos (length e) (length s) fits,
      length-append e (s ++ rest),
      length-append s rest,
      cut,
    )

length-encoded-le : (n : ℕ) → length (encoded n) ≤ 9
unfolding encoded append_length_encoded_integer
length-encoded-le n = ground (arith, length-to_bytes 2 n, length-to_bytes 3 n, length-to_bytes 8 n)

string_empty : (b : Bytes) (n : ℕ) → string_of b (0, false, n) ≡ ok ([], false, pos n)
unfolding string_of
string_empty b n = refl

string_behind :
    (e s rest : Bytes)
    → length e ≤ 9
    → length s < 2 ^ 63 - 9
    → string_of (e ++ (s ++ rest)) (length s, false, length e)
      ≡ ok (s, false, pos (length e + length s))
string_behind e [] rest le fits = rw add-zero (string_empty (e ++ rest) (length e))
string_behind e (c ∷ s) rest le fits = string_at e (c ∷ s) rest (omega arith) (omega arith)

-- A string of less than 2 ^ 63 - 9 bytes that `appendLengthEncodedString` wrote is read back, whatever
-- follows it: its bytes, no NULL, and the count of the bytes of the whole encoding.
pub read-append_string :
    (s rest : Bytes)
    → length s < 2 ^ 63 - 9
    → read_length_encoded_string (append_length_encoded_string [] s ++ rest)
      ≡ ok (s, false, pos (length (append_length_encoded_string [] s)))
unfolding read_length_encoded_string append_length_encoded_string
read-append_string s rest fits =
    let e = encoded (length s) in
    let (shape, back) = read-append_integer [] (s ++ rest) (length s) (omega arith) in
    rw (shape, append_assoc, back, length-append e s)
      (string_behind e s rest (length-encoded-le (length s)) fits)
