-- ===== src/Mysql/Dsn/Params.antt =====
-- mysql/dsn.go: the configuration, and the parameters of a DSN.
use dbrwproxy.Prelude.{
  Bytes, List, [], ◌∷◌, ◌++◌, Bool, true, false, ◌||◌, Option, none, some, if◌then◌else◌, bytes_eq,
  codes,
}
use dbrwproxy.Prelude.Int.{ℤ, pos}
use dbrwproxy.Mysql.Errors.{message, Result, ok, err, panic, ◌>>=◌}
use dbrwproxy.Mysql.Dsn.Text.{split, split_from, split_pair, unescape, atoi, to_lower}

pub record Tls : Type 0 where
  pub server_name : Bytes
  pub insecure_skip_verify : Bool

-- `Config`; `params` is the map, in the order in which its keys were first written.
pub record DsnConfig : Type 0 where
  pub user : Bytes
  pub passwd : Bytes
  pub network : Bytes
  pub addr : Bytes
  pub db_name : Bytes
  pub params : List (Bytes × Bytes)
  pub connection_attributes : Bytes
  pub collation : Bytes
  pub loc : Bytes
  pub max_allowed_packet : ℤ
  pub server_pub_key : Bytes
  pub pub_key : Option Bytes
  pub tls_config : Bytes
  pub tls : Option Tls
  pub timeout : ℤ
  pub read_timeout : ℤ
  pub write_timeout : ℤ
  pub allow_all_files : Bool
  pub allow_cleartext_passwords : Bool
  pub allow_fallback_to_plaintext : Bool
  pub allow_native_passwords : Bool
  pub allow_old_passwords : Bool
  pub check_conn_liveness : Bool
  pub client_found_rows : Bool
  pub columns_with_alias : Bool
  pub interpolate_params : Bool
  pub multi_statements : Bool
  pub parse_time : Bool
  pub reject_read_only : Bool

-- What stands outside: a public key is the text that it is made of.
pub record Registers : Type 0 where
  pub tls_configs : Bytes → Option Tls
  pub server_keys : Bytes → Option Bytes
  pub parse_duration : Bytes → Option ℤ
  pub load_location : Bytes → Option Bytes

-- `NewConfig`
abbrev pub new_config : DsnConfig
new_config = record {
  user = [];
  passwd = [];
  network = [];
  addr = [];
  db_name = [];
  params = [];
  connection_attributes = [];
  collation = [];
  loc = codes "UTC";
  max_allowed_packet = pos 67108864;
  server_pub_key = [];
  pub_key = none;
  tls_config = [];
  tls = none;
  timeout = pos 0;
  read_timeout = pos 0;
  write_timeout = pos 0;
  allow_all_files = false;
  allow_cleartext_passwords = false;
  allow_fallback_to_plaintext = false;
  allow_native_passwords = true;
  allow_old_passwords = false;
  check_conn_liveness = true;
  client_found_rows = false;
  columns_with_alias = false;
  interpolate_params = false;
  multi_statements = false;
  parse_time = false;
  reject_read_only = false;
}

unfoldable pub member : Bytes → List Bytes → Bool
member name [] = false
member name (x ∷ xs) = bytes_eq name x || member name xs

-- `unsafeCollations` of mysql/collations.go
unfoldable pub unsafe_collations : List Bytes
unsafe_collations =
    codes "big5_chinese_ci"
    ∷ codes "sjis_japanese_ci"
    ∷ codes "gbk_chinese_ci"
    ∷ codes "big5_bin"
    ∷ codes "gb2312_bin"
    ∷ codes "gbk_bin"
    ∷ codes "sjis_bin"
    ∷ codes "cp932_japanese_ci"
    ∷ codes "cp932_bin"
    ∷ codes "gb18030_chinese_ci"
    ∷ codes "gb18030_bin"
    ∷ codes "gb18030_unicode_520_ci"
    ∷ []

-- `readBool` of mysql/utils.go
unfoldable pub read_bool : Bytes → Option Bool
unfolding member
read_bool input =
    if member input (codes "1" ∷ codes "true" ∷ codes "TRUE" ∷ codes "True" ∷ [])
    then some true
    else if member input (codes "0" ∷ codes "false" ∷ codes "FALSE" ∷ codes "False" ∷ [])
    then some false
    else none

-- The parameters that are Booleans, with what each sets.
abbrev pub Setter : Type 0
Setter = Bool → DsnConfig → DsnConfig

unfoldable pub flags : List (Bytes × Setter)
flags =
    (codes "allowAllFiles", λ b c. record c { allow_all_files = b })
    ∷ (codes "allowCleartextPasswords", λ b c. record c { allow_cleartext_passwords = b })
    ∷ (codes "allowFallbackToPlaintext", λ b c. record c { allow_fallback_to_plaintext = b })
    ∷ (codes "allowNativePasswords", λ b c. record c { allow_native_passwords = b })
    ∷ (codes "allowOldPasswords", λ b c. record c { allow_old_passwords = b })
    ∷ (codes "checkConnLiveness", λ b c. record c { check_conn_liveness = b })
    ∷ (codes "clientFoundRows", λ b c. record c { client_found_rows = b })
    ∷ (codes "columnsWithAlias", λ b c. record c { columns_with_alias = b })
    ∷ (codes "interpolateParams", λ b c. record c { interpolate_params = b })
    ∷ (codes "multiStatements", λ b c. record c { multi_statements = b })
    ∷ (codes "parseTime", λ b c. record c { parse_time = b })
    ∷ (codes "rejectReadOnly", λ b c. record c { reject_read_only = b })
    ∷ []

unfoldable pub flag_named : Bytes → List (Bytes × Setter) → Option Setter
flag_named name [] = none
flag_named name ((key, set) ∷ rest) = if bytes_eq name key then some set else flag_named name rest

-- m[key] = value
unfoldable pub put_param : Bytes → Bytes → List (Bytes × Bytes) → List (Bytes × Bytes)
put_param key value [] = (key, value) ∷ []
put_param key value ((k, v) ∷ rest) =
    let later = put_param key value rest in
    if bytes_eq key k then (k, value) ∷ rest else (k, v) ∷ later

unfoldable pub or_message : {A : Type 0} → Option A → Bytes → Result A
or_message none text = err (message text)
or_message (some a) text = ok a

-- tls=…
unfoldable pub tls_value : Bytes → Result Bytes
unfolding read_bool or_message to_lower unescape
tls_value value =
    let lower = to_lower value in
    let named =
      if bytes_eq lower (codes "skip-verify") || bytes_eq lower (codes "preferred")
      then ok lower
      else or_message (unescape true value) (codes "invalid value for TLS config name") in
    elim (read_bool value) as (λ r. Result Bytes) [
      | none ↦ named
      | some b ↦ ok (if b then codes "true" else codes "false")
    ]

-- The parameters that are no Booleans.
unfoldable pub other_param : Registers → Bytes → Bytes → DsnConfig → Result DsnConfig
unfolding or_message unescape tls_value atoi put_param
other_param registers name value cfg =
    let location = (do
      text ← or_message (unescape true value) (codes "loc")
      loc ← or_message (registers.load_location text) (codes "loc")
      ok (record cfg { loc = loc })) in
    let key = (do
      text ← or_message (unescape true value) (codes "invalid value for server pub key name")
      ok (record cfg { server_pub_key = text })) in
    let plain = (do
      text ← or_message (unescape true value) (codes "params")
      ok (record cfg { params = put_param name text cfg.params })) in
    let duration = λ (set : ℤ → DsnConfig).
      or_message (registers.parse_duration value) (codes "duration") >>= λ d. ok (set d) in
    if bytes_eq name (codes "collation")
    then ok (record cfg { collation = value })
    else if bytes_eq name (codes "compress")
    then err (message (codes "compression not implemented yet"))
    else if bytes_eq name (codes "loc")
    then location
    else if bytes_eq name (codes "readTimeout")
    then duration (λ d. record cfg { read_timeout = d })
    else if bytes_eq name (codes "serverPubKey")
    then key
    else if bytes_eq name (codes "strict")
    then panic
    else if bytes_eq name (codes "timeout")
    then duration (λ d. record cfg { timeout = d })
    else if bytes_eq name (codes "tls")
    then (do t ← tls_value value; ok (record cfg { tls_config = t }))
    else if bytes_eq name (codes "writeTimeout")
    then duration (λ d. record cfg { write_timeout = d })
    else if bytes_eq name (codes "maxAllowedPacket")
    then (do n ← or_message (atoi value) (codes "atoi"); ok (record cfg { max_allowed_packet = n }))
    else if bytes_eq name (codes "connectionAttributes")
    then ok (record cfg { connection_attributes = value })
    else plain

-- One parameter.
unfoldable pub apply_param : Registers → Bytes → Bytes → DsnConfig → Result DsnConfig
unfolding flags flag_named other_param or_message read_bool
apply_param registers name value cfg = elim (flag_named name flags) as (λ r. Result DsnConfig) [
  | none ↦ other_param registers name value cfg
  | some set ↦
      or_message (read_bool value) (codes "invalid bool value: " ++ value) >>= λ b. ok (set b cfg)
]

-- A piece between two '&'; one without '=' is skipped.
unfoldable pub apply_piece : Registers → Bytes → DsnConfig → Result DsnConfig
unfolding apply_param split_pair
apply_piece registers piece cfg = elim (split_pair b'=' piece) as (λ r. Result DsnConfig) [
  | none ↦ ok cfg
  | some (name, value) ↦ apply_param registers name value cfg
]

unfoldable pub apply_pieces : Registers → List Bytes → DsnConfig → Result DsnConfig
unfolding apply_piece
apply_pieces registers [] cfg = ok cfg
apply_pieces registers (piece ∷ pieces) cfg =
    apply_piece registers piece cfg >>= apply_pieces registers pieces

-- `parseDSNParams`
unfoldable pub parse_dsn_params : Registers → Bytes → DsnConfig → Result DsnConfig
unfolding apply_pieces split_from
parse_dsn_params registers params cfg = apply_pieces registers (split b'&' params) cfg
