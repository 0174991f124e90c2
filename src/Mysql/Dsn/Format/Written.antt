-- ===== src/Mysql/Dsn/Format/Written.antt =====
-- The parameters that `FormatDSN` of mysql/dsn.go writes, cut apart again by `parseDSNParams`.
use dbrwproxy.Prelude.{
  ℕ, ◌≡◌, ◌≢◌, refl, sym, ap, ◌∙◌, Bytes, List, [], ◌∷◌, ◌++◌, append-nil, append_assoc, true,
  false, some, All, All-append, take-append_length, map, arith,
}
use dbrwproxy.Mysql.Errors.{then_same, Result, ok, ◌>>=◌}
use dbrwproxy.Mysql.Dsn.Text.{split_from, split_pair, unescape}
use dbrwproxy.Mysql.Dsn.Params.{
  DsnConfig, Registers, apply_param, apply_piece, apply_pieces, parse_dsn_params,
}
use dbrwproxy.Mysql.Dsn.{after_slash, db_name_of}
use dbrwproxy.Mysql.Dsn.Cutting.{Lacks, differs, index_byte-append, index_byte-Lacks, drop_past}
use dbrwproxy.Mysql.Dsn.Format.{write_params}

abbrev piece : Bytes × Bytes → Bytes
piece (name, value) = name ++ (b'=' ∷ value)

-- All but the first parameter.
unfoldable more : List (Bytes × Bytes) → Bytes
more [] = []
more (p ∷ ps) = b'&' ∷ (piece p ++ more ps)

unfoldable pub params_text : List (Bytes × Bytes) → Bytes
unfolding more
params_text [] = []
params_text (p ∷ ps) = b'?' ∷ (piece p ++ more ps)

write_params-more :
    (ps : List (Bytes × Bytes)) (buf : Bytes) → (write_params ps (buf, true)).0 ≡ buf ++ more ps
unfolding write_params more
write_params-more [] buf = sym (append-nil buf)
write_params-more ((n, v) ∷ ps) buf =
    write_params-more ps (buf ++ (b'&' ∷ piece (n, v)))
    ∙ append_assoc buf (b'&' ∷ piece (n, v)) (more ps)

pub write_params-text :
    (ps : List (Bytes × Bytes)) (buf : Bytes)
    → (write_params ps (buf, false)).0 ≡ buf ++ params_text ps
unfolding write_params params_text
write_params-text [] buf = sym (append-nil buf)
write_params-text ((n, v) ∷ ps) buf =
    write_params-more ps (buf ++ (b'?' ∷ piece (n, v)))
    ∙ append_assoc buf (b'?' ∷ piece (n, v)) (more ps)

-- A parameter that can be cut out again.
pub record IsWritten (p : Bytes × Bytes) : Type 0 where
  pub name_ends : Lacks b'=' p.0
  pub name_joins : Lacks b'&' p.0
  pub value_joins : Lacks b'&' p.1
  pub name_slash : Lacks b'/' p.0
  pub value_slash : Lacks b'/' p.1

piece-Lacks : (c : ℕ) (p : Bytes × Bytes) → b'=' ≢ c → Lacks c p.0 → Lacks c p.1 → Lacks c (piece p)
piece-Lacks c (n, v) h hn hv = All-append (λ b. b ≢ c) n (b'=' ∷ v) hn (h, hv)

split_from-Lacks :
    (c : ℕ) (part xs rest : Bytes)
    → Lacks c xs
    → split_from c part (xs ++ rest) ≡ split_from c (part ++ xs) rest
unfolding split_from
split_from-Lacks c part [] rest _ = ap (λ p. split_from c p rest) (sym (append-nil part))
split_from-Lacks c part (x ∷ xs) rest (h, hs) = rw (differs x c h) (
    split_from-Lacks c (part ++ (x ∷ [])) xs rest hs
    ∙ ap (λ p. split_from c p rest) (append_assoc part (x ∷ []) xs))

split_from-more :
    (ps : List (Bytes × Bytes)) (part : Bytes)
    → All IsWritten ps
    → split_from b'&' part (more ps) ≡ part ∷ map piece ps
unfolding split_from more
split_from-more [] part _ = refl
split_from-more (p ∷ ps) part (h, hs) =
    let joins = piece-Lacks b'&' p (λ e. absurd (omega arith)) h.name_joins h.value_joins in
    ap (◌∷◌ part)
      (split_from-Lacks b'&' [] (piece p) (more ps) joins ∙ split_from-more ps (piece p) hs)

-- The parameters, one behind the other.
unfoldable pub apply_written : Registers → List (Bytes × Bytes) → DsnConfig → Result DsnConfig
apply_written registers [] cfg = ok cfg
apply_written registers ((name, value) ∷ ps) cfg =
    apply_param registers name value cfg >>= apply_written registers ps

apply_piece-written :
    (registers : Registers) (p : Bytes × Bytes) (cfg : DsnConfig)
    → Lacks b'=' p.0
    → apply_piece registers (piece p) cfg ≡ apply_param registers p.0 p.1 cfg
unfolding apply_piece split_pair
apply_piece-written registers (n, v) cfg h =
    rw
      (
        apply_piece,
        split_pair,
        index_byte-append b'=' n v h,
        take-append_length n (b'=' ∷ v),
        drop_past b'=' n v,
      )
      refl

apply_pieces-written :
    (registers : Registers) (ps : List (Bytes × Bytes)) (cfg : DsnConfig)
    → All IsWritten ps
    → apply_pieces registers (map piece ps) cfg ≡ apply_written registers ps cfg
unfolding apply_pieces apply_written
apply_pieces-written registers [] cfg _ = refl
apply_pieces-written registers (p ∷ ps) cfg (h, hs) =
    ap (λ r. r >>= apply_pieces registers (map piece ps))
      (apply_piece-written registers p cfg h.name_ends)
    ∙ then_same (apply_param registers p.0 p.1 cfg) _ _
        (λ c. apply_pieces-written registers ps c hs)

parse_dsn_params-written :
    (registers : Registers) (p : Bytes × Bytes) (ps : List (Bytes × Bytes)) (cfg : DsnConfig)
    → All IsWritten (p ∷ ps)
    → parse_dsn_params registers (piece p ++ more ps) cfg ≡ apply_written registers (p ∷ ps) cfg
unfolding parse_dsn_params
parse_dsn_params-written registers p ps cfg (h, hs) =
    let joins = piece-Lacks b'&' p (λ e. absurd (omega arith)) h.name_joins h.value_joins in
    ap (λ pieces. apply_pieces registers pieces cfg)
      (split_from-Lacks b'&' [] (piece p) (more ps) joins ∙ split_from-more ps (piece p) hs)
    ∙ apply_pieces-written registers (p ∷ ps) cfg (h, hs)

db_name_of-escaped :
    (text name : Bytes) (cfg : DsnConfig)
    → unescape false text ≡ some name
    → db_name_of text cfg ≡ ok (record cfg { db_name = name })
unfolding db_name_of
db_name_of-escaped text name cfg e = rw (db_name_of, e) refl

after_slash-plain :
    (registers : Registers) (text : Bytes) (cfg : DsnConfig)
    → Lacks b'?' text
    → after_slash registers text cfg ≡ db_name_of text cfg
unfolding after_slash
after_slash-plain registers text cfg h = rw (after_slash, index_byte-Lacks b'?' text h) refl

after_slash-params :
    (registers : Registers) (text rest : Bytes) (cfg : DsnConfig)
    → Lacks b'?' text
    → after_slash registers (text ++ (b'?' ∷ rest)) cfg
      ≡ (parse_dsn_params registers rest cfg >>= db_name_of text)
unfolding after_slash
after_slash-params registers text rest cfg h =
    rw
      (
        after_slash,
        index_byte-append b'?' text rest h,
        take-append_length text (b'?' ∷ rest),
        drop_past b'?' text rest,
      )
      refl

-- What stands behind the last '/'.
pub after_slash-written :
    (registers : Registers) (text name : Bytes) (ps : List (Bytes × Bytes)) (cfg cfg' : DsnConfig)
    → Lacks b'?' text
    → unescape false text ≡ some name
    → All IsWritten ps
    → apply_written registers ps cfg ≡ ok cfg'
    → after_slash registers (text ++ params_text ps) cfg ≡ ok (record cfg' { db_name = name })
unfolding params_text apply_written
after_slash-written registers text name [] cfg cfg' h e _ applied =
    ap (λ t. after_slash registers t cfg) (append-nil text)
    ∙ after_slash-plain registers text cfg h
    ∙ ap (λ c. c >>= db_name_of text) applied
    ∙ db_name_of-escaped text name cfg' e
after_slash-written registers text name (p ∷ ps) cfg cfg' h e hs applied =
    after_slash-params registers text (piece p ++ more ps) cfg h
    ∙ ap (λ c. c >>= db_name_of text) (parse_dsn_params-written registers p ps cfg hs ∙ applied)
    ∙ db_name_of-escaped text name cfg' e

more-Lacks : (ps : List (Bytes × Bytes)) → All IsWritten ps → Lacks b'/' (more ps)
unfolding more
more-Lacks [] _ = tt
more-Lacks (p ∷ ps) (h, hs) =
    let lacks = piece-Lacks b'/' p (λ e. absurd (omega arith)) h.name_slash h.value_slash in
    (
      λ e. absurd (omega arith),
      All-append (λ b. b ≢ b'/') (piece p) (more ps) lacks (more-Lacks ps hs),
    )

pub params_text-Lacks : (ps : List (Bytes × Bytes)) → All IsWritten ps → Lacks b'/' (params_text ps)
unfolding params_text
params_text-Lacks [] _ = tt
params_text-Lacks (p ∷ ps) (h, hs) =
    let lacks = piece-Lacks b'/' p (λ e. absurd (omega arith)) h.name_slash h.value_slash in
    (
      λ e. absurd (omega arith),
      All-append (λ b. b ≢ b'/') (piece p) (more ps) lacks (more-Lacks ps hs),
    )
