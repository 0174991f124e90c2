-- ===== src/Mysql/Runs.antt =====
-- Runs of the length-encoded values and of the escaping of mysql/utils.go, the theorems at inputs.
use dbrwproxy.Prelude.{
  ℕ, ◌≡◌, ◌≢◌, refl, Bytes, [], ◌∷◌, ◌++◌, true, false, Option, none, some, ◌==◌, if◌then◌else◌,
  length, arith, ◌⊎◌, ◌||◌,
}
use dbrwproxy.Prelude.Int.{pos, int_add}
use dbrwproxy.Mysql.Errors.{ok}
use dbrwproxy.Mysql.LengthEncoded.{
  read_length_encoded_integer, read_length_encoded_string, append_length_encoded_string,
}
use dbrwproxy.Mysql.LengthEncoded.RoundTrip.{read-append_string}
use dbrwproxy.Mysql.LengthEncoded.Bounds.{Found, Short, read_string_bounds}
use dbrwproxy.Mysql.Escape.{
  backslash_code, quote_code, escape_bytes_backslash, escape_string_backslash, escape_bytes_quotes,
  escape_string_quotes,
}
use dbrwproxy.Mysql.Escape.Append.{escaped, escape_appends}
use dbrwproxy.Mysql.Escape.Literal.{read_in_front, read_literal-backslash, read_literal-quotes}

abbrev abc : Bytes
abc = b'a' ∷ b'b' ∷ b'c' ∷ []

read-append_string_example :
    read_length_encoded_string (append_length_encoded_string [] abc ++ (7 ∷ []))
    ≡ ok (abc, false, pos (length (append_length_encoded_string [] abc)))
read-append_string_example = read-append_string abc (7 ∷ []) (omega arith)

abbrev encoded_abc : Bytes
encoded_abc = 3 ∷ b'a' ∷ b'b' ∷ b'c' ∷ 7 ∷ []

read_abc : read_length_encoded_string encoded_abc ≡ ok (abc, false, pos 4)
unfolding read_length_encoded_string read_length_encoded_integer int_add
read_abc = refl

not_empty : encoded_abc ≢ []
not_empty e = ground arith

read_three : read_length_encoded_integer encoded_abc ≡ ok (3, false, 1)
unfolding read_length_encoded_integer
read_three = refl

read_string_bounds_example :
    Found encoded_abc 3 1 false (read_length_encoded_string encoded_abc)
    ⊎ Short encoded_abc 3 1 (read_length_encoded_string encoded_abc)
read_string_bounds_example =
    read_string_bounds encoded_abc 3 1 false not_empty read_three (omega arith)

abbrev its : Bytes
its = b'i' ∷ b't' ∷ b'\'' ∷ b's' ∷ 0 ∷ []

escape_appends_example :
    (escape_bytes_backslash (b'(' ∷ []) (1 ∷ 2 ∷ []) its
      ≡ some (b'(' ∷ escaped b'\\' backslash_code its))
    × (escape_string_backslash (b'(' ∷ []) (1 ∷ 2 ∷ []) its
        ≡ some (b'(' ∷ escaped b'\\' backslash_code its))
    × (escape_bytes_quotes (b'(' ∷ []) (1 ∷ 2 ∷ []) its
        ≡ some (b'(' ∷ escaped b'\'' quote_code its))
    × (escape_string_quotes (b'(' ∷ []) (1 ∷ 2 ∷ []) its
        ≡ some (b'(' ∷ escaped b'\'' quote_code its))
escape_appends_example = escape_appends (b'(' ∷ []) (1 ∷ 2 ∷ []) its

escaped_its :
    escape_bytes_backslash (b'(' ∷ []) (1 ∷ 2 ∷ []) its
    ≡ some (b'(' ∷ b'i' ∷ b't' ∷ b'\\' ∷ b'\'' ∷ b's' ∷ b'\\' ∷ b'0' ∷ [])
unfolding escape_bytes_backslash
escaped_its = refl

-- A reader of a literal with backslash sequences.
abbrev meaning : ℕ → ℕ
meaning e =
    if e == b'0'
    then 0
    else if e == b'n'
    then b'\n'
    else if e == b'r'
    then b'\r'
    else if e == b'Z'
    then 0x1a
    else e

-- \% and \_ stand for themselves, with the backslash.
abbrev read_sequence : ℕ → Option (Bytes × Bytes) → Option (Bytes × Bytes)
read_sequence e r =
    if e == b'%' || e == b'_'
    then read_in_front b'\\' (read_in_front e r)
    else read_in_front (meaning e) r

abbrev read_backslash : Bytes → Option (Bytes × Bytes)
read_backslash [] = none
read_backslash (c ∷ []) = if c == b'\'' then some ([], []) else none
read_backslash (c ∷ d ∷ bs) = elim (c == b'\'') [
  | true ↦ some ([], d ∷ bs)
  | false ↦ elim (c == b'\\') [
    | true ↦ read_sequence d (read_backslash bs)
    | false ↦ read_in_front c (read_backslash (d ∷ bs))
  ]
]

plain_backslash :
    (c : ℕ) (bs : Bytes)
    → c ≢ b'\''
    → c ≢ b'\\'
    → read_backslash (c ∷ bs) ≡ read_in_front c (read_backslash bs)
plain_backslash c [] q b = ground arith
plain_backslash c (d ∷ bs) q b = ground arith

plain_sequence :
    (e : ℕ) (bs : Bytes)
    → e ≢ b'%'
    → e ≢ b'_'
    → read_backslash (b'\\' ∷ e ∷ bs) ≡ read_in_front (meaning e) (read_backslash bs)
plain_sequence e bs p u = ground arith

read_literal-backslash_example :
    (text : Bytes) × (escape_bytes_backslash [] [] its ≡ some text)
    × (read_backslash (text ++ (b'\'' ∷ b')' ∷ [])) ≡ some (its, b')' ∷ []))
read_literal-backslash_example =
    read_literal-backslash read_backslash meaning
      (record {
        nul = refl;
        newline = refl;
        carriage_return = refl;
        control_z = refl;
        quote = refl;
        double_quote = refl;
        backslash = refl;
      })
      plain_backslash plain_sequence [] its (b')' ∷ []) refl

-- A reader of a literal in which a quote is doubled.
abbrev read_doubled : Bytes → Option (Bytes × Bytes)
read_doubled [] = none
read_doubled (c ∷ []) = if c == b'\'' then some ([], []) else none
read_doubled (c ∷ d ∷ bs) = elim (c == b'\'') [
  | true ↦ elim (d == b'\'') [
    | true ↦ read_in_front b'\'' (read_doubled bs)
    | false ↦ some ([], d ∷ bs)
  ]
  | false ↦ read_in_front c (read_doubled (d ∷ bs))
]

plain_doubled :
    (c : ℕ) (bs : Bytes) → c ≢ b'\'' → read_doubled (c ∷ bs) ≡ read_in_front c (read_doubled bs)
plain_doubled c [] q = ground arith
plain_doubled c (d ∷ bs) q = ground arith

read_literal-quotes_example :
    (text : Bytes) × (escape_bytes_quotes [] [] its ≡ some text)
    × (read_doubled (text ++ (b'\'' ∷ b')' ∷ [])) ≡ some (its, b')' ∷ []))
read_literal-quotes_example =
    read_literal-quotes read_doubled plain_doubled (λ bs. refl) [] its (b')' ∷ []) refl
