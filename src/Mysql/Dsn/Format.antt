-- ===== src/Mysql/Dsn/Format.antt =====
-- mysql/dsn.go: `FormatDSN`. What time.Duration.String prints is a parameter.
pub mod Escaping
pub mod Written
pub mod Front
pub mod Applied
pub mod RoundTrip
use dbrwproxy.Prelude.{
  ℕ, zero, suc, ◌+◌, ◌-◌, ◌/◌, ◌%◌, Bytes, List, [], ◌∷◌, ◌++◌, Bool, true, false, not, ◌&&◌, ◌||◌,
  Option, none, some, ltb, leb, ◌==◌, if◌then◌else◌, bytes_eq, codes,
}
use dbrwproxy.Prelude.Int.{ℤ, pos, negsuc, ltb_ℤ}
use dbrwproxy.Prelude.Decimal.{itoa}
use dbrwproxy.Mysql.Dsn.Params.{DsnConfig}

-- What net/url leaves as it is: letters, digits and '-', '_', '.', '~'.
unfoldable pub is_unreserved : ℕ → Bool
is_unreserved b =
    (leb 97 b && leb b 122)
    || ((leb 65 b && leb b 90)
        || ((leb 48 b && leb b 57) || (b == b'-' || (b == b'_' || (b == b'.' || b == b'~')))))

-- In a segment of a path also these.
unfoldable pub is_segment : ℕ → Bool
unfolding is_unreserved
is_segment b =
    is_unreserved b
    || (b == b'$' || (b == b'&' || (b == b'+' || (b == b':' || (b == b'=' || b == b'@')))))

-- An upper case hexadecimal digit.
unfoldable pub hex : ℕ → ℕ
hex n = if ltb n 10 then 48 + n else 55 + n

abbrev pub percent : ℕ → Bytes
percent b = b'%' ∷ hex (b / 16) ∷ hex (b % 16) ∷ []

-- url.PathEscape
unfoldable pub path_escape : Bytes → Bytes
unfolding is_segment hex
path_escape [] = []
path_escape (b ∷ bs) = (if is_segment b then b ∷ [] else percent b) ++ path_escape bs

-- url.QueryEscape
unfoldable pub query_escape : Bytes → Bytes
unfolding is_unreserved hex
query_escape [] = []
query_escape (b ∷ bs) =
    (if b == 32 then b'+' ∷ [] else if is_unreserved b then b ∷ [] else percent b)
    ++ query_escape bs

-- `writeDSNParam`, on the buffer and `hasParam`
unfoldable pub write_dsn_param : Bytes → Bytes → Bytes × Bool → Bytes × Bool
write_dsn_param name value (buf, has_param) =
    (buf ++ ((if has_param then b'&' else b'?') ∷ (name ++ (b'=' ∷ value))), true)

unfoldable pub write_params : List (Bytes × Bytes) → Bytes × Bool → Bytes × Bool
unfolding write_dsn_param
write_params [] state = state
write_params ((name, value) ∷ rest) state = write_params rest (write_dsn_param name value state)

-- sort.Strings, on the parameters by their keys.
unfoldable pub bytes_less : Bytes → Bytes → Bool
bytes_less xs [] = false
bytes_less [] (y ∷ ys) = true
bytes_less (x ∷ xs) (y ∷ ys) = ltb x y || (x == y && bytes_less xs ys)

unfoldable pub insert_param : Bytes → Bytes → List (Bytes × Bytes) → List (Bytes × Bytes)
unfolding bytes_less
insert_param key value [] = (key, value) ∷ []
insert_param key value ((k, v) ∷ rest) =
    let later = insert_param key value rest in
    if bytes_less k key then (k, v) ∷ later else (key, value) ∷ (k, v) ∷ rest

-- The parameters of the map, escaped and in order.
unfoldable pub other_params : List (Bytes × Bytes) → List (Bytes × Bytes)
unfolding insert_param query_escape
other_params [] = []
other_params ((key, value) ∷ rest) = insert_param key (query_escape value) (other_params rest)

-- A parameter that is written under a condition.
abbrev pub optional : Bool → Bytes → Bytes → List (Bytes × Bytes)
optional written name value = if written then (name, value) ∷ [] else []

abbrev pub is_set : Bytes → Bool
is_set text = not (bytes_eq text [])

unfoldable pub int_eq : ℤ → ℤ → Bool
int_eq (pos a) (pos b) = a == b
int_eq (negsuc a) (negsuc b) = a == b
int_eq (pos a) (negsuc b) = false
int_eq (negsuc a) (pos b) = false

-- [username[:password]@]
unfoldable pub format_user : Bytes → Bytes → Bytes
unfolding bytes_eq
format_user user passwd =
    if is_set user
    then (user ++ (if is_set passwd then b':' ∷ passwd else [])) ++ (b'@' ∷ [])
    else []

-- [protocol[(address)]]
unfoldable pub format_net : Bytes → Bytes → Bytes
unfolding bytes_eq
format_net network addr =
    if is_set network
    then network ++ (if is_set addr then b'(' ∷ (addr ++ (b')' ∷ [])) else [])
    else []

unfoldable pub format_front : DsnConfig → Bytes
unfolding format_user format_net
format_front cfg = format_user cfg.user cfg.passwd ++ format_net cfg.network cfg.addr

module _ (duration_text : ℤ → Bytes) where
  abbrev pub optional_duration : Bytes → ℤ → List (Bytes × Bytes)
  optional_duration name d = optional (ltb_ℤ (pos 0) d) name (duration_text d)

  -- The parameters in the order in which they are written. The first is written without
  -- `writeDSNParam`, to the same effect.
  unfoldable pub written_params : DsnConfig → List (Bytes × Bytes)
  unfolding query_escape other_params itoa int_eq
  written_params cfg =
      let t = codes "true" in
      let f = codes "false" in
      optional cfg.allow_all_files (codes "allowAllFiles") t
      ++ (optional cfg.allow_cleartext_passwords (codes "allowCleartextPasswords") t
          ++ (optional cfg.allow_fallback_to_plaintext (codes "allowFallbackToPlaintext") t
              ++ (optional (not cfg.allow_native_passwords) (codes "allowNativePasswords") f
                  ++ (optional cfg.allow_old_passwords (codes "allowOldPasswords") t
                      ++ (optional (not cfg.check_conn_liveness) (codes "checkConnLiveness") f
                          ++ (optional cfg.client_found_rows (codes "clientFoundRows") t
                              ++ (optional (is_set cfg.collation) (codes "collation") cfg.collation
                                  ++ (optional cfg.columns_with_alias (codes "columnsWithAlias") t
                                      ++ (optional cfg.interpolate_params
                                            (codes "interpolateParams") t
                                          ++ (optional (not (bytes_eq cfg.loc (codes "UTC")))
                                                (codes "loc") (query_escape cfg.loc)
                                              ++ (optional cfg.multi_statements
                                                    (codes "multiStatements") t
                                                  ++ (optional cfg.parse_time (codes "parseTime") t
                                                      ++ (optional_duration (codes "readTimeout")
                                                            cfg.read_timeout
                                                          ++ (optional cfg.reject_read_only
                                                            (codes "rejectReadOnly") t
                                                            ++ (optional (is_set cfg.server_pub_key)
                                                            (codes "serverPubKey")
                                                            (query_escape cfg.server_pub_key)
                                                            ++ (optional_duration (codes "timeout")
                                                            cfg.timeout
                                                            ++ (optional (is_set cfg.tls_config)
                                                            (codes "tls")
                                                            (query_escape cfg.tls_config)
                                                            ++ (optional_duration
                                                            (codes "writeTimeout") cfg.write_timeout
                                                            ++ (optional
                                                            (not (
                                                            int_eq cfg.max_allowed_packet
                                                            (pos 67108864)))
                                                            (codes "maxAllowedPacket")
                                                            (itoa cfg.max_allowed_packet)
                                                            ++ other_params
                                                            cfg.params)))))))))))))))))))

  -- `FormatDSN`
  unfoldable pub format_dsn : DsnConfig → Bytes
  unfolding format_front path_escape written_params write_params
  format_dsn cfg =
      (write_params (written_params cfg)
        (format_front cfg ++ (b'/' ∷ path_escape cfg.db_name), false)).0
