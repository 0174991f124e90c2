-- ===== src/Mysql/Handshake/Greeting.antt =====
-- A greeting of the server, laid out as the protocol's manual has it, to `readHandshakePacket` of
-- mysql/packets.go.
use dbrwproxy.Prelude.{
  ℕ, ◌+◌, ◌*◌, ◌≡◌, refl, sym, ap, ◌∙◌, Bytes, [], ◌∷◌, ◌++◌, Bool, true, false, ltb, length, take,
  drop, take-append_length, drop-append_length, length-append, append_assoc, drop-drop, ◌≤◌,
  Bool-cases, inl, inr, ltb→lt, arith,
}
use dbrwproxy.Mysql.Errors.{ok}
use dbrwproxy.Mysql.Dsn.Cutting.{Lacks, index_byte-append}
use dbrwproxy.Mysql.Handshake.{
  slice, speaks_41, offers_ssl, until_zero, second_part, settle_tls, parse_handshake,
}

-- `id` has four bytes, the ciphers 8 and 12, and `middle` the 16 from the character set to the reserved.
pub record Greeting : Type 0 where
  pub version : Bytes
  pub id : Bytes
  pub first_cipher : Bytes
  pub low_flags : ℕ
  pub high_flags : ℕ
  pub middle : Bytes
  pub second_cipher : Bytes
  pub plugin : Bytes
  pub tail : Bytes

pub record IsGreeting (g : Greeting) : Type 0 where
  pub version_ends : Lacks 0 g.version
  pub id_length : length g.id ≡ 4
  pub first_length : length g.first_cipher ≡ 8
  pub middle_length : length g.middle ≡ 16
  pub second_length : length g.second_cipher ≡ 12
  pub plugin_ends : Lacks 0 g.plugin

abbrev behind_flags : Greeting → Bytes
behind_flags g = g.middle ++ (g.second_cipher ++ (0 ∷ (g.plugin ++ (0 ∷ g.tail))))

abbrev pub greeting_bytes : Greeting → Bytes
greeting_bytes g =
    10
    ∷ (g.version
        ++ (0 ∷ (g.id ++ (g.first_cipher ++ (0 ∷ g.low_flags ∷ g.high_flags ∷ behind_flags g)))))

abbrev pub flags_of : Greeting → ℕ
flags_of g = g.low_flags + 256 * (g.high_flags + 256 * 0)

drop_exact : (n : ℕ) (xs ys : Bytes) → length xs ≡ n → drop n (xs ++ ys) ≡ ys
drop_exact n xs ys h = ap (λ k. drop k (xs ++ ys)) (sym h) ∙ drop-append_length xs ys

take_exact : (n : ℕ) (xs ys : Bytes) → length xs ≡ n → take n (xs ++ ys) ≡ xs
take_exact n xs ys h = ap (λ k. take k (xs ++ ys)) (sym h) ∙ take-append_length xs ys

drop_further : (n m : ℕ) (xs ys : Bytes) → length xs ≡ n → drop (n + m) (xs ++ ys) ≡ drop m ys
drop_further n m xs ys h = sym (drop-drop n m (xs ++ ys)) ∙ ap (drop m) (drop_exact n xs ys h)

enough : (n : ℕ) (xs ys : Bytes) → n ≤ length xs → ltb (length (xs ++ ys)) n ≡ false
enough n xs ys h = elim (Bool-cases (ltb (length (xs ++ ys)) n)) [
  | inl e ↦ absurd (omega (arith, ltb→lt _ _ e, length-append xs ys))
  | inr e ↦ e
]

slice_exact : (n : ℕ) (xs ys : Bytes) → length xs ≡ n → slice n (xs ++ ys) ≡ ok xs
unfolding slice
slice_exact n xs ys h = rw (enough n xs ys (omega arith), take_exact n xs ys h) refl

until_zero-ended : (xs ys : Bytes) → Lacks 0 xs → until_zero (xs ++ (0 ∷ ys)) ≡ xs
unfolding until_zero
until_zero-ended xs ys h =
    rw (until_zero, index_byte-append 0 xs ys h) (take-append_length xs (0 ∷ ys))

thirteen : (xs ys : Bytes) → length xs ≡ 12 → slice 13 (xs ++ (0 ∷ ys)) ≡ ok (xs ++ (0 ∷ []))
thirteen xs ys h =
    let one_more : length (xs ++ (0 ∷ [])) ≡ 13 = omega (arith, h, length-append xs (0 ∷ [])) in
    ap (slice 13) (sym (append_assoc xs (0 ∷ []) ys)) ∙ slice_exact 13 (xs ++ (0 ∷ [])) ys one_more

second_part-read :
    (middle more plugin tail auth_data : Bytes) (flags : ℕ) (drops : Bool)
    → length middle ≡ 16
    → length more ≡ 12
    → Lacks 0 plugin
    → second_part auth_data flags drops (middle ++ (more ++ (0 ∷ (plugin ++ (0 ∷ tail)))))
      ≡ ok (record {
        auth_data = auth_data ++ more;
        plugin = plugin;
        flags = flags;
        drops_tls = drops;
      })
unfolding second_part
second_part-read [] more plugin tail auth_data flags drops hm hs hp = absurd (omega arith)
second_part-read (m ∷ ms) more plugin tail auth_data flags drops hm hs hp =
    let behind = 0 ∷ (plugin ++ (0 ∷ tail)) in
    rw
      (
        second_part,
        drop_exact 16 (m ∷ ms) (more ++ behind) hm,
        slice_exact 12 more behind hs,
        thirteen more (plugin ++ (0 ∷ tail)) hs,
        drop_further 12 1 more behind hs,
        until_zero-ended plugin tail hp,
      )
      refl

-- From a greeting of the server that speaks the protocol 4.1 and offers TLS, `readHandshakePacket`
-- takes both parts of the cipher, one behind the other, the name of the plugin and the lower
-- capability flags, and it keeps the TLS configuration, whatever the version, the connection's
-- number, the other flags and the bytes behind the name are.
pub parse_handshake-greeting :
    (has_tls allow_fallback : Bool) (g : Greeting)
    → IsGreeting g
    → speaks_41 (flags_of g) ≡ true
    → offers_ssl (flags_of g) ≡ true
    → parse_handshake has_tls allow_fallback (greeting_bytes g)
      ≡ ok (record {
        auth_data = g.first_cipher ++ g.second_cipher;
        plugin = g.plugin;
        flags = flags_of g;
        drops_tls = false;
      })
unfolding parse_handshake settle_tls
parse_handshake-greeting has_tls allow_fallback g h speaks offers =
    let behind = 0 ∷ g.low_flags ∷ g.high_flags ∷ behind_flags g in
    let start : drop (length g.version + 5)
          (g.version ++ (0 ∷ (g.id ++ (g.first_cipher ++ behind))))
        ≡ g.first_cipher ++ behind =
      drop_further (length g.version) 5 g.version (0 ∷ (g.id ++ (g.first_cipher ++ behind))) refl
      ∙ drop_exact 4 g.id (g.first_cipher ++ behind) h.id_length in
    rw
      (
        parse_handshake,
        index_byte-append 0 g.version (g.id ++ (g.first_cipher ++ behind)) h.version_ends,
        start,
        slice_exact 8 g.first_cipher behind h.first_length,
        drop_further 8 1 g.first_cipher behind h.first_length,
        drop_further 8 3 g.first_cipher behind h.first_length,
        speaks,
        offers,
        second_part-read g.middle g.second_cipher g.plugin g.tail g.first_cipher (flags_of g) false
            h.middle_length h.second_length h.plugin_ends,
      )
      refl
