-- ===== src/Mysql/Auth/Replies.antt =====
-- mysql/auth.go: the answer to a challenge. The hashes, RSA and the reading of keys are arguments.
use Prim.Native.Nat.{bit_xor}
use dbrwproxy.Prelude.{
  ℕ, ◌+◌, ◌%◌, Bytes, codes, [], ◌∷◌, ◌++◌, Bool, true, false, not, Option, none, some, ltb,
  if◌then◌else◌, length, take, get_elem?, bytes_eq,
}
use dbrwproxy.Mysql.Errors.{
  message, Result, ok, err, panic, old_password, cleartext_password, native_password,
  unknown_plugin, ◌>>=◌,
}
use dbrwproxy.Mysql.OldPassword.{scramble_old_password}
use dbrwproxy.Mysql.Fields.{or_panic}
use dbrwproxy.Mysql.Dsn.Params.{DsnConfig}

-- `parse_key` is x509.ParsePKIXPublicKey with the conversion behind it, which may panic.
pub record Crypto : Type 0 where
  pub sha1 : Bytes → Bytes
  pub sha256 : Bytes → Bytes
  pub encrypt_oaep : Bytes → Bytes → Option Bytes
  pub decode_pem : Bytes → Option Bytes
  pub parse_key : Bytes → Result Bytes

-- for i := range xs { xs[i] ^= ys[i] }
unfoldable pub xor_bytes : Bytes → Bytes → Result Bytes
xor_bytes [] ys = ok []
xor_bytes (x ∷ xs) [] = panic
xor_bytes (x ∷ xs) (y ∷ ys) = xor_bytes xs ys >>= λ rest. ok (bit_xor x y ∷ rest)

-- `scramblePassword`
unfoldable pub scramble_password : Crypto → Bytes → Bytes → Result Bytes
unfolding xor_bytes
scramble_password crypto scramble [] = ok []
scramble_password crypto scramble (p ∷ ps) =
    let stage1 = crypto.sha1 (p ∷ ps) in
    let hash = crypto.sha1 stage1 in xor_bytes (crypto.sha1 (scramble ++ hash)) stage1

-- `scrambleSHA256Password`
unfoldable pub scramble_sha256_password : Crypto → Bytes → Bytes → Result Bytes
unfolding xor_bytes
scramble_sha256_password crypto scramble [] = ok []
scramble_sha256_password crypto scramble (p ∷ ps) =
    let message1 = crypto.sha256 (p ∷ ps) in
    let message1_hash = crypto.sha256 message1 in
    xor_bytes message1 (crypto.sha256 (message1_hash ++ scramble))

-- plain[i] ^= seed[i % len(seed)], from an index on; an empty seed divides by zero.
unfoldable pub mask_plain : Bytes → ℕ → Bytes → Result Bytes
mask_plain seed i [] = ok []
mask_plain seed i (b ∷ bs) = or_panic (get_elem? seed (i % length seed)) >>= λ s.
    mask_plain seed (i + 1) bs >>= λ rest. ok (bit_xor b s ∷ rest)

-- `encryptPassword`
unfoldable pub encrypt_password : Crypto → Bytes → Bytes → Bytes → Result Bytes
unfolding mask_plain
encrypt_password crypto password seed pub_key =
    mask_plain seed 0 (password ++ (0 ∷ [])) >>= λ masked.
    elim (crypto.encrypt_oaep masked pub_key) as (λ r. Result Bytes) [
      | none ↦ err (message (codes "rsa"))
      | some encrypted ↦ ok encrypted
    ]

abbrev pub has_tls : DsnConfig → Bool
has_tls cfg = elim cfg.tls as (λ r. Bool) [ none ↦ false | some tls ↦ true ]

-- append([]byte(mc.cfg.Passwd), 0)
abbrev pub clear : DsnConfig → Bytes
clear cfg = cfg.passwd ++ (0 ∷ [])

-- authData[:n]
abbrev pub cut_to : ℕ → Bytes → Result Bytes
cut_to n bytes = if ltb (length bytes) n then panic else ok (take n bytes)

-- A scramble and a zero byte.
abbrev pub ended : Option Bytes → Result Bytes
ended none = panic
ended (some out) = ok (out ++ (0 ∷ []))

-- append(scrambleOldPassword(authData[:8], password), 0)
unfoldable pub old_scrambled : Bytes → Bytes → Result Bytes
unfolding scramble_old_password
old_scrambled password auth_data =
    cut_to 8 auth_data >>= λ cipher. ended (scramble_old_password cipher password)

unfoldable pub old_reply : DsnConfig → Bytes → Result Bytes
unfolding old_scrambled
old_reply cfg auth_data =
    if not cfg.allow_old_passwords
    then err old_password
    else if bytes_eq cfg.passwd []
    then ok []
    else old_scrambled cfg.passwd auth_data

unfoldable pub native_scrambled : Crypto → Bytes → Bytes → Result Bytes
unfolding scramble_password
native_scrambled crypto password auth_data =
    cut_to 20 auth_data >>= λ cipher. scramble_password crypto cipher password

-- What is encrypted with the public key, or the request of that key.
abbrev pub key_reply : Crypto → Option Bytes → Bytes → Bytes → Result Bytes
key_reply crypto none password auth_data = ok (1 ∷ [])
key_reply crypto (some key) password auth_data = encrypt_password crypto password auth_data key

unfoldable pub sha256_reply : Crypto → DsnConfig → Bytes → Result Bytes
unfolding encrypt_password
sha256_reply crypto cfg auth_data =
    if bytes_eq cfg.passwd []
    then ok (0 ∷ [])
    else if has_tls cfg
    then ok (clear cfg)
    else key_reply crypto cfg.pub_key cfg.passwd auth_data

-- `auth`
unfoldable pub auth : Crypto → DsnConfig → Bytes → Bytes → Result Bytes
unfolding scramble_sha256_password old_reply native_scrambled sha256_reply bytes_eq
auth crypto cfg auth_data plugin =
    if bytes_eq plugin (codes "caching_sha2_password")
    then scramble_sha256_password crypto auth_data cfg.passwd
    else if bytes_eq plugin (codes "mysql_old_password")
    then old_reply cfg auth_data
    else if bytes_eq plugin (codes "mysql_clear_password")
    then (if cfg.allow_cleartext_passwords then ok (clear cfg) else err cleartext_password)
    else if bytes_eq plugin (codes "mysql_native_password")
    then (if cfg.allow_native_passwords
        then native_scrambled crypto cfg.passwd auth_data
        else err native_password)
    else if bytes_eq plugin (codes "sha256_password")
    then sha256_reply crypto cfg auth_data
    else err unknown_plugin
