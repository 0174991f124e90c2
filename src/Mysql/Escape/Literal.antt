-- ===== src/Mysql/Escape/Literal.antt =====
-- What mysql/utils.go escapes, to the server that reads it. The server's reader of a quoted literal is
-- not in the repository: it is a parameter, with the documented rules of a literal as hypotheses.
use dbrwproxy.Prelude.{
  ℕ, ◌≡◌, ◌≢◌, ap, ◌∙◌, Bytes, [], ◌∷◌, ◌++◌, append_assoc, Option, none, some, arith, Option-cases,
  inl, inr,
}
use dbrwproxy.Mysql.Escape.{backslash_code, quote_code, escape_bytes_backslash, escape_bytes_quotes}
use dbrwproxy.Mysql.Escape.Append.{hide, escaped, escape_appends}

-- A value's byte read in front of what a reader gives for the rest.
abbrev pub read_in_front : ℕ → Option (Bytes × Bytes) → Option (Bytes × Bytes)
read_in_front c none = none
read_in_front c (some (v, rest)) = some (c ∷ v, rest)

-- What a backslash sequence means, by the server's manual.
pub record Meaning (meaning : ℕ → ℕ) : Type 0 where
  pub nul : meaning b'0' ≡ 0x00
  pub newline : meaning b'n' ≡ b'\n'
  pub carriage_return : meaning b'r' ≡ b'\r'
  pub control_z : meaning b'Z' ≡ 0x1a
  pub quote : meaning b'\'' ≡ b'\''
  pub double_quote : meaning b'"' ≡ b'"'
  pub backslash : meaning b'\\' ≡ b'\\'

backslash_code-some :
    (meaning : ℕ → ℕ) → Meaning meaning → (c e : ℕ) → backslash_code c ≡ some e → meaning e ≡ c
unfolding backslash_code
backslash_code-some meaning m c e h =
    let nul = m.nul in
    let newline = m.newline in
    let carriage_return = m.carriage_return in
    let control_z = m.control_z in
    let quote = m.quote in
    let double_quote = m.double_quote in let backslash = m.backslash in ground arith

-- No byte is escaped to one of the two sequences that the manual treats apart.
backslash_code-percent : (c e : ℕ) → backslash_code c ≡ some e → (e ≢ b'%') × (e ≢ b'_')
unfolding backslash_code
backslash_code-percent c e h = (λ p. ground arith, λ p. ground arith)

backslash_code-none : (c : ℕ) → backslash_code c ≡ none → (c ≢ b'\'') × (c ≢ b'\\')
unfolding backslash_code
backslash_code-none c h = (λ e. ground arith, λ e. ground arith)

module _ (read_literal : Bytes → Option (Bytes × Bytes)) (lead : ℕ) (code : ℕ → Option ℕ)
    (hidden : (c : ℕ) (bs : Bytes)
      → read_literal (hide lead c (code c) ++ bs) ≡ read_in_front c (read_literal bs)) where
  read_literal-escaped :
      (v rest rest' : Bytes)
      → read_literal rest ≡ some ([], rest')
      → read_literal (escaped lead code v ++ rest) ≡ some (v, rest')
  unfolding escaped
  read_literal-escaped [] rest rest' closing = closing
  read_literal-escaped (c ∷ v) rest rest' closing =
      ap read_literal (append_assoc (hide lead c (code c)) (escaped lead code v) rest)
      ∙ hidden c (escaped lead code v ++ rest)
      ∙ ap (read_in_front c) (read_literal-escaped v rest rest' closing)

-- For every reader that takes a byte other than a quote or a backslash as it is, a backslash sequence
-- other than \% and \_ (which may be two bytes) as the manual's table has it, and a quote as the end: the value that
-- `escapeBytesBackslash` appends to an empty buffer, closed by a quote, is read back as the very
-- value, and the reader goes on behind the closing quote whatever bytes the value has.
pub read_literal-backslash :
    (read_literal : Bytes → Option (Bytes × Bytes)) (meaning : ℕ → ℕ)
    → Meaning meaning
    → ((c : ℕ) (bs : Bytes)
        → c ≢ b'\''
        → c ≢ b'\\'
        → read_literal (c ∷ bs) ≡ read_in_front c (read_literal bs))
    → ((e : ℕ) (bs : Bytes)
        → e ≢ b'%'
        → e ≢ b'_'
        → read_literal (b'\\' ∷ e ∷ bs) ≡ read_in_front (meaning e) (read_literal bs))
    → (spare v rest : Bytes) → read_literal (b'\'' ∷ rest) ≡ some ([], rest)
    → (text : Bytes) × (escape_bytes_backslash [] spare v ≡ some text)
      × (read_literal (text ++ (b'\'' ∷ rest)) ≡ some (v, rest))
read_literal-backslash read_literal meaning m plain sequence spare v rest closing =
    let (e, _, _, _) = escape_appends [] spare v in
    (
      escaped b'\\' backslash_code v,
      e,
      read_literal-escaped read_literal b'\\' backslash_code hidden v (b'\'' ∷ rest) rest closing,
    )
  where
    hidden :
        (c : ℕ) (bs : Bytes)
        → read_literal (hide b'\\' c (backslash_code c) ++ bs) ≡ read_in_front c (read_literal bs)
    hidden c bs = elim (Option-cases (backslash_code c)) [
      | inl h ↦ let (q, b) = backslash_code-none c h in rw h (plain c bs q b)
      | inr (e, h) ↦ rw h (
          sequence e bs (backslash_code-percent c e h).0 (backslash_code-percent c e h).1
          ∙ ap (λ d. read_in_front d (read_literal bs)) (backslash_code-some meaning m c e h))
    ]

quote_code-some : (c e : ℕ) → quote_code c ≡ some e → (c ≡ b'\'') × (e ≡ b'\'')
unfolding quote_code
quote_code-some c e h = (ground arith, ground arith)

quote_code-none : (c : ℕ) → quote_code c ≡ none → c ≢ b'\''
unfolding quote_code
quote_code-none c h e = ground arith

-- For every reader of the NO_BACKSLASH_ESCAPES mode, which takes every byte but a quote as it is and
-- a doubled quote as one: the value that `escapeBytesQuotes` appends to an empty buffer, closed by a
-- quote that ends the literal, is read back as the very value.
pub read_literal-quotes :
    (read_literal : Bytes → Option (Bytes × Bytes))
    → ((c : ℕ) (bs : Bytes) → c ≢ b'\'' → read_literal (c ∷ bs) ≡ read_in_front c (read_literal bs))
    → ((bs : Bytes) → read_literal (b'\'' ∷ b'\'' ∷ bs) ≡ read_in_front b'\'' (read_literal bs))
    → (spare v rest : Bytes) → read_literal (b'\'' ∷ rest) ≡ some ([], rest)
    → (text : Bytes) × (escape_bytes_quotes [] spare v ≡ some text)
      × (read_literal (text ++ (b'\'' ∷ rest)) ≡ some (v, rest))
read_literal-quotes read_literal plain doubled spare v rest closing =
    let (_, _, e, _) = escape_appends [] spare v in
    (
      escaped b'\'' quote_code v,
      e,
      read_literal-escaped read_literal b'\'' quote_code hidden v (b'\'' ∷ rest) rest closing,
    )
  where
    hidden :
        (c : ℕ) (bs : Bytes)
        → read_literal (hide b'\'' c (quote_code c) ++ bs) ≡ read_in_front c (read_literal bs)
    hidden c bs = elim (Option-cases (quote_code c)) [
      | inl h ↦ rw h (plain c bs (quote_code-none c h))
      | inr (e, h) ↦
          let (is_quote, code_quote) = quote_code-some c e h in
          rw (h, is_quote, code_quote) (doubled bs)
    ]
