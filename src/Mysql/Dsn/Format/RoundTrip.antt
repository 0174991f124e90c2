-- ===== src/Mysql/Dsn/Format/RoundTrip.antt =====
-- `ParseDSN` of what `FormatDSN` of mysql/dsn.go writes.
use dbrwproxy.Prelude.{
  ℕ, ◌≡◌, ◌≢◌, refl, ap, ◌∙◌, Bytes, IsByte, codes, List, [], ◌∷◌, ◌++◌, append_assoc, Bool, true,
  false, not, ◌&&◌, none, some, All, All-append, bytes_eq, arith, index_byte,
}
use dbrwproxy.Prelude.Int.{ℤ, pos, ltb_ℤ, leb_ℤ}
use dbrwproxy.Prelude.Decimal.{itoa, IsDigit}
use dbrwproxy.Mysql.Errors.{ok, ◌>>=◌}
use dbrwproxy.Mysql.Dsn.Text.{lacks_byte}
use dbrwproxy.Mysql.Dsn.Params.{
  DsnConfig, Registers, new_config, tls_value, flags, flag_named, apply_param, other_param,
  or_message,
}
use dbrwproxy.Mysql.Dsn.{parse_dsn, normalize, before_slash, after_slash}
use dbrwproxy.Mysql.Dsn.Cutting.{Lacks, Lacks-lacks_byte}
use dbrwproxy.Mysql.Dsn.Numbers.{IsInt64, itoa-Lacks}
use dbrwproxy.Mysql.Dsn.Format.{
  hex, is_unreserved, is_segment, path_escape, query_escape, optional, optional_duration, is_set,
  int_eq, format_front, written_params, other_params, format_dsn,
}
use dbrwproxy.Mysql.Dsn.Format.Escaping.{
  IsForeign, path_escape-Lacks, query_escape-Lacks, unescape-path_escape,
}
use dbrwproxy.Mysql.Dsn.Format.Front.{format_front-read, parse_dsn-cut}
use dbrwproxy.Mysql.Dsn.Format.Written.{
  IsWritten, apply_written, params_text, params_text-Lacks, write_params-text, after_slash-written,
}
use dbrwproxy.Mysql.Dsn.Format.Applied.{
  both, flag_on, flag_off, collation_applied, loc_applied, duration_applied, server_pub_key_applied,
  tls_applied, max_allowed_packet_applied,
}

-- What is asked of the package time: a positive duration is read back, from a text without '&' and '/'.
pub record Durations (duration_text : ℤ → Bytes) (registers : Registers) : Type 0 where
  pub parsed :
      (d : ℤ) → ltb_ℤ (pos 0) d ≡ true → registers.parse_duration (duration_text d) ≡ some d
  pub joins : (d : ℤ) → Lacks b'&' (duration_text d)
  pub slash : (d : ℤ) → Lacks b'/' (duration_text d)

-- A configuration that the syntax of a source name can hold.
pub record IsPrintable (registers : Registers) (cfg : DsnConfig) : Type 0 where
  pub user_ends : Lacks b':' cfg.user
  pub nobody : cfg.user ≡ [] → cfg.passwd ≡ []
  pub network_ends : Lacks b'(' cfg.network
  pub network_at : Lacks b'@' cfg.network
  pub nowhere : cfg.network ≡ [] → cfg.addr ≡ []
  pub addr_at : Lacks b'@' cfg.addr
  pub db_name_bytes : All IsByte cfg.db_name
  pub collation_joins : Lacks b'&' cfg.collation
  pub collation_slash : Lacks b'/' cfg.collation
  pub loc_bytes : All IsByte cfg.loc
  pub loc_known : registers.load_location cfg.loc ≡ some cfg.loc
  pub key_bytes : All IsByte cfg.server_pub_key
  pub tls_bytes : All IsByte cfg.tls_config
  pub tls_named : tls_value (query_escape cfg.tls_config) ≡ ok cfg.tls_config
  pub timeout_positive : leb_ℤ (pos 0) cfg.timeout ≡ true
  pub read_timeout_positive : leb_ℤ (pos 0) cfg.read_timeout ≡ true
  pub write_timeout_positive : leb_ℤ (pos 0) cfg.write_timeout ≡ true
  pub packet_bound : IsInt64 cfg.max_allowed_packet
  pub no_params : cfg.params ≡ []

amp-IsForeign : IsForeign b'&'
unfolding hex
amp-IsForeign = ((λ e. absurd (omega arith)), λ n h. ground arith)

slash-IsForeign : IsForeign b'/'
unfolding hex
slash-IsForeign = ((λ e. absurd (omega arith)), λ n h. ground arith)

question-IsForeign : IsForeign b'?'
unfolding hex
question-IsForeign = ((λ e. absurd (omega arith)), λ n h. ground arith)

abbrev is_name : Bytes → Bool
is_name name = lacks_byte name b'=' && (lacks_byte name b'&' && lacks_byte name b'/')

and_parts : (a b : Bool) → (a && b) ≡ true → (a ≡ true) × (b ≡ true)
and_parts true b h = (refl, h)
and_parts false b h = cc

-- All of them can be cut out again.
record AreWritten (ps : List (Bytes × Bytes)) : Type 0 where
  pub all : All IsWritten ps

optional-AreWritten :
    (written : Bool) (name value : Bytes)
    → is_name name ≡ true
    → Lacks b'&' value
    → Lacks b'/' value
    → AreWritten (optional written name value)
optional-AreWritten false name value h ha hs = record { all = tt }
optional-AreWritten true name value h ha hs =
    let (e, rest) = and_parts (lacks_byte name b'=') _ h in
    let (a, s) = and_parts (lacks_byte name b'&') _ rest in
    record {
      all = (
        record {
          name_ends = Lacks-lacks_byte b'=' name e;
          name_joins = Lacks-lacks_byte b'&' name a;
          value_joins = ha;
          name_slash = Lacks-lacks_byte b'/' name s;
          value_slash = hs;
        },
        tt,
      );
    }

module _ (duration_text : ℤ → Bytes) (registers : Registers)
    (durations : Durations duration_text registers) (cfg : DsnConfig)
    (printable : IsPrintable registers cfg) where
  query_AreWritten :
      (written : Bool) (name text : Bytes)
      → is_name name ≡ true
      → All IsByte text
      → AreWritten (optional written name (query_escape text))
  unfolding is_unreserved
  query_AreWritten written name text h bytes =
      optional-AreWritten written name (query_escape text) h
        (query_escape-Lacks b'&' text (λ e. absurd (omega arith)) refl amp-IsForeign bytes)
        (query_escape-Lacks b'/' text (λ e. absurd (omega arith)) refl slash-IsForeign bytes)

  fixed_AreWritten :
      (written : Bool) (name value : Bytes)
      → is_name name ≡ true
      → is_name value ≡ true
      → AreWritten (optional written name value)
  fixed_AreWritten written name value h k =
      let (e, rest) = and_parts (lacks_byte value b'=') _ k in
      let (a, s) = and_parts (lacks_byte value b'&') _ rest in
      optional-AreWritten written name value h (Lacks-lacks_byte b'&' value a)
        (Lacks-lacks_byte b'/' value s)

  duration_AreWritten :
      (name : Bytes) (d : ℤ)
      → is_name name ≡ true
      → AreWritten (optional_duration duration_text name d)
  duration_AreWritten name d h =
      optional-AreWritten (ltb_ℤ (pos 0) d) name (duration_text d) h (durations.joins d)
        (durations.slash d)

  joined : (ps qs : List (Bytes × Bytes)) → AreWritten ps → AreWritten qs → AreWritten (ps ++ qs)
  joined ps qs h k = record { all = All-append IsWritten ps qs h.all k.all }

  number : (c : ℕ) → ¬ IsDigit c → c ≢ b'-' → Lacks c (itoa cfg.max_allowed_packet)
  number c h m = itoa-Lacks c h m cfg.max_allowed_packet

  others_written : AreWritten (other_params cfg.params)
  unfolding other_params
  others_written = record { all = rw printable.no_params tt }

  no_others :
      (c : DsnConfig)
      → c.params ≡ []
      → apply_written registers (other_params cfg.params) c ≡ ok (record c { params = cfg.params })
  unfolding other_params apply_written
  no_others c e = rw printable.no_params (ap (λ p. ok (record c { params = p })) e)

  timeout_applied :
      (name : Bytes) (d : ℤ) (set : ℤ → DsnConfig → DsnConfig) (c : DsnConfig)
      → ((value : Bytes)
          → apply_param registers name value c ≡ (
              or_message (registers.parse_duration value) (codes "duration") >>= λ x. ok (set x c)))
      → leb_ℤ (pos 0) d ≡ true
      → set (pos 0) c ≡ c
      → apply_written registers (optional_duration duration_text name d) c ≡ ok (set d c)
  timeout_applied name d set c sets positive e =
      duration_applied registers duration_text name d (λ x. set x c) c sets (durations.parsed d)
        positive e

  written_params-applied :
      apply_written registers (written_params duration_text cfg) (record new_config {
        user = cfg.user;
        passwd = cfg.passwd;
        network = cfg.network;
        addr = cfg.addr;
      })
      ≡ ok (record cfg { db_name = []; connection_attributes = []; pub_key = none; tls = none })
  unfolding written_params flags flag_named bytes_eq apply_param other_param
  written_params-applied =
      both registers _ _ _ _ _ (flag_on registers _ _ cfg.allow_all_files _ refl refl) (
        both registers _ _ _ _ _ (flag_on registers _ _ cfg.allow_cleartext_passwords _ refl refl) (
          both registers _ _ _ _ _
            (flag_on registers _ _ cfg.allow_fallback_to_plaintext _ refl refl)
            (both registers _ _ _ _ _
              (flag_off registers _ _ cfg.allow_native_passwords _ refl refl)
              (both registers _ _ _ _ _ (flag_on registers _ _ cfg.allow_old_passwords _ refl refl)
                (both registers _ _ _ _ _
                  (flag_off registers _ _ cfg.check_conn_liveness _ refl refl)
                  (both registers _ _ _ _ _
                    (flag_on registers _ _ cfg.client_found_rows _ refl refl)
                    (both registers _ _ _ _ _ (collation_applied registers cfg.collation _ refl) (
                      both registers _ _ _ _ _
                        (flag_on registers _ _ cfg.columns_with_alias _ refl refl)
                        (both registers _ _ _ _ _
                          (flag_on registers _ _ cfg.interpolate_params _ refl refl)
                          (both registers _ _ _ _ _
                            (loc_applied registers cfg.loc _ printable.loc_bytes printable.loc_known
                              refl)
                            (both registers _ _ _ _ _
                              (flag_on registers _ _ cfg.multi_statements _ refl refl)
                              (both registers _ _ _ _ _
                                (flag_on registers _ _ cfg.parse_time _ refl refl)
                                (both registers _ _ _ _ _
                                  (timeout_applied (codes "readTimeout") cfg.read_timeout
                                    (λ d c. record c { read_timeout = d }) _ (λ value. refl)
                                    printable.read_timeout_positive refl)
                                  (both registers _ _ _ _ _
                                    (flag_on registers _ _ cfg.reject_read_only _ refl refl)
                                    (both registers _ _ _ _ _
                                      (server_pub_key_applied registers cfg.server_pub_key _
                                        printable.key_bytes refl)
                                      (both registers _ _ _ _ _
                                        (timeout_applied (codes "timeout") cfg.timeout
                                          (λ d c. record c { timeout = d }) _ (λ value. refl)
                                          printable.timeout_positive refl)
                                        (both registers _ _ _ _ _
                                          (tls_applied registers cfg.tls_config _
                                            printable.tls_named refl)
                                          (both registers _ _ _ _ _
                                            (timeout_applied (codes "writeTimeout")
                                              cfg.write_timeout
                                              (λ d c. record c { write_timeout = d }) _
                                              (λ value. refl) printable.write_timeout_positive refl)
                                            (both registers _ _ _ _ _
                                              (max_allowed_packet_applied registers
                                                cfg.max_allowed_packet _ printable.packet_bound
                                                refl)
                                              (no_others _ refl))))))))))))))))))))

  written_params-AreWritten : AreWritten (written_params duration_text cfg)
  unfolding written_params index_byte
  written_params-AreWritten =
      let flag =
        λ (b : Bool) (name value : Bytes) (h : is_name name ≡ true) (k : is_name value ≡ true).
          fixed_AreWritten b name value h k in
      joined _ _ (flag cfg.allow_all_files (codes "allowAllFiles") (codes "true") refl refl) (
        joined _ _
          (flag cfg.allow_cleartext_passwords (codes "allowCleartextPasswords") (codes "true") refl
            refl)
          (joined _ _
            (flag cfg.allow_fallback_to_plaintext (codes "allowFallbackToPlaintext") (codes "true")
              refl refl)
            (joined _ _
              (flag (not cfg.allow_native_passwords) (codes "allowNativePasswords") (codes "false")
                refl refl)
              (joined _ _
                (flag cfg.allow_old_passwords (codes "allowOldPasswords") (codes "true") refl refl)
                (joined _ _
                  (flag (not cfg.check_conn_liveness) (codes "checkConnLiveness") (codes "false")
                    refl refl)
                  (joined _ _
                    (flag cfg.client_found_rows (codes "clientFoundRows") (codes "true") refl refl)
                    (joined _ _
                      (optional-AreWritten (is_set cfg.collation) (codes "collation") cfg.collation
                        refl printable.collation_joins printable.collation_slash)
                      (joined _ _
                        (flag cfg.columns_with_alias (codes "columnsWithAlias") (codes "true") refl
                          refl)
                        (joined _ _
                          (flag cfg.interpolate_params (codes "interpolateParams") (codes "true")
                            refl refl)
                          (joined _ _
                            (query_AreWritten (not (bytes_eq cfg.loc (codes "UTC"))) (codes "loc")
                              cfg.loc refl printable.loc_bytes)
                            (joined _ _
                              (flag cfg.multi_statements (codes "multiStatements") (codes "true")
                                refl refl)
                              (joined _ _
                                (flag cfg.parse_time (codes "parseTime") (codes "true") refl refl)
                                (joined _ _
                                  (duration_AreWritten (codes "readTimeout") cfg.read_timeout refl)
                                  (joined _ _
                                    (flag cfg.reject_read_only (codes "rejectReadOnly")
                                      (codes "true") refl refl)
                                    (joined _ _
                                      (query_AreWritten (is_set cfg.server_pub_key)
                                        (codes "serverPubKey") cfg.server_pub_key refl
                                        printable.key_bytes)
                                      (joined _ _
                                        (duration_AreWritten (codes "timeout") cfg.timeout refl)
                                        (joined _ _
                                          (query_AreWritten (is_set cfg.tls_config) (codes "tls")
                                            cfg.tls_config refl printable.tls_bytes)
                                          (joined _ _
                                            (duration_AreWritten (codes "writeTimeout")
                                              cfg.write_timeout refl)
                                            (joined _ _
                                              (optional-AreWritten
                                                (not (int_eq cfg.max_allowed_packet (pos 67108864)))
                                                (codes "maxAllowedPacket")
                                                (itoa cfg.max_allowed_packet) refl
                                                (number b'&' (λ e. absurd (omega arith))
                                                  (λ e. absurd (omega arith)))
                                                (number b'/' (λ e. absurd (omega arith))
                                                  (λ e. absurd (omega arith))))
                                              others_written)))))))))))))))))))

  escaped_name : (c : ℕ) → is_segment c ≡ false → IsForeign c → Lacks c (path_escape cfg.db_name)
  escaped_name c h foreign = path_escape-Lacks c cfg.db_name h foreign printable.db_name_bytes

  back_slash :
      Lacks b'/' (path_escape cfg.db_name ++ params_text (written_params duration_text cfg))
  unfolding is_segment
  back_slash =
      All-append (λ b. b ≢ b'/') _ _ (escaped_name b'/' refl slash-IsForeign)
        (params_text-Lacks _ written_params-AreWritten.all)

  front_read :
      before_slash (format_front cfg) new_config
      ≡ ok (record new_config {
        user = cfg.user;
        passwd = cfg.passwd;
        network = cfg.network;
        addr = cfg.addr;
      })
  unfolding format_front
  front_read =
      format_front-read cfg.user cfg.passwd cfg.network cfg.addr new_config printable.user_ends
        printable.nobody printable.network_ends printable.network_at printable.nowhere
        printable.addr_at (refl, (refl, refl))

  back_read :
      after_slash registers
        (path_escape cfg.db_name ++ params_text (written_params duration_text cfg))
        (record new_config {
          user = cfg.user;
          passwd = cfg.passwd;
          network = cfg.network;
          addr = cfg.addr;
        })
      ≡ ok (record cfg { connection_attributes = []; pub_key = none; tls = none })
  unfolding is_segment
  back_read =
      after_slash-written registers (path_escape cfg.db_name) cfg.db_name _ _ _
        (escaped_name b'?' refl question-IsForeign)
        (unescape-path_escape cfg.db_name printable.db_name_bytes) written_params-AreWritten.all
        written_params-applied

  -- `ParseDSN` of what `FormatDSN` writes for a configuration that the syntax can hold (its user
  -- holds no ':', its address no '@', and so on; a known location; no negative timeout; no further
  -- parameters) is what `normalize` makes of the same configuration without its connection
  -- attributes, which `FormatDSN` does not write, and with its TLS configuration and public key
  -- looked up again. Of the package time it is asked that a positive duration is parsed from what
  -- it prints, which holds no '&' and no '/'.
  pub parse-format_dsn :
      parse_dsn registers (format_dsn duration_text cfg)
      ≡ normalize registers (record cfg { connection_attributes = []; pub_key = none; tls = none })
  unfolding format_dsn
  parse-format_dsn =
      let front = format_front cfg in
      let name = path_escape cfg.db_name in
      let params = written_params duration_text cfg in
      let back = name ++ params_text params in
      ap (parse_dsn registers) (
        write_params-text params (front ++ (b'/' ∷ name))
        ∙ append_assoc front (b'/' ∷ name) (params_text params))
      ∙ parse_dsn-cut registers front back _ _ back_slash front_read back_read
