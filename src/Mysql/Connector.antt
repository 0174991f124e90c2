-- ===== src/Mysql/Connector.antt =====
-- mysql/connector.go and mysql/driver.go: a connector of a DSN, and `Connect`, from where the connection
-- is dialled. The watching of the context is not modelled, nor the timeouts, nor `mc.maxWriteSize`, which
-- Mysql/Query/Infile is given.
pub mod Failing
pub mod Runs
use dbrwproxy.Prelude.{
  ℕ, zero, suc, ◌+◌, ◌-◌, ◌*◌, ◌%◌, Bytes, codes, List, [], ◌∷◌, ◌++◌, Bool, true, false, Option,
  none, some, ltb, if◌then◌else◌, length, bytes_eq,
}
use dbrwproxy.Prelude.Int.{ℤ, pos, negsuc, pos_part, ltb_ℤ, int_add, int_mul}
use dbrwproxy.Prelude.Decimal.{itoa}
use dbrwproxy.Mysql.Errors.{MysqlError, message, Result, ok, err, panic}
use dbrwproxy.Mysql.LengthEncoded.{append_length_encoded_string}
use dbrwproxy.Mysql.Values.{Conversion}
use dbrwproxy.Mysql.Connection.{MysqlConn, Outcome, done, stuck, M, and_then, lift, pure, cleanup}
use dbrwproxy.Mysql.Dsn.Text.{split_from, split, split_pair}
use dbrwproxy.Mysql.Dsn.Params.{DsnConfig, Registers}
use dbrwproxy.Mysql.Dsn.{parse_dsn}
use dbrwproxy.Mysql.Query.{Sending}
use dbrwproxy.Mysql.Query.Commands.{close_conn}
use dbrwproxy.Mysql.Query.Params.{handle_params, get_system_var}
use dbrwproxy.Mysql.Auth.Replies.{Crypto, auth, has_tls}
use dbrwproxy.Mysql.Auth.{handle_auth_result}
use dbrwproxy.Mysql.Handshake.{Handshake, read_handshake_packet}
use dbrwproxy.Mysql.Handshake.Response.{write_handshake_response_packet}

-- What the program runs on: runtime.GOOS, runtime.GOARCH and the process.
pub record Host : Type 0 where
  pub os : Bytes
  pub arch : Bytes
  pub pid : ℕ

unfoldable pub append_all : Bytes → List Bytes → Bytes
unfolding append_length_encoded_string
append_all buf [] = buf
append_all buf (text ∷ texts) = append_all (append_length_encoded_string buf text) texts

-- The attributes that the configuration names.
unfoldable pub append_attributes : Bytes → List Bytes → Bytes
unfolding append_all split_pair
append_attributes buf [] = buf
append_attributes buf (attribute ∷ attributes) =
    append_attributes
      (elim (split_pair b':' attribute) as (λ r. Bytes) [
        | none ↦ buf
        | some (key, value) ↦ append_all buf (key ∷ value ∷ [])
      ])
      attributes

-- `encodeConnectionAttributes`
unfoldable pub encode_connection_attributes : Host → Bytes → Bytes
unfolding append_all append_attributes split_from
encode_connection_attributes host text_attributes =
    append_attributes
      (append_all [] (
        codes "_client_name"
        ∷ codes "Go-MySQL-Driver"
        ∷ codes "_os"
        ∷ host.os
        ∷ codes "_platform"
        ∷ host.arch
        ∷ codes "_pid"
        ∷ itoa (pos host.pid)
        ∷ []))
      (split b',' text_attributes)

pub record Connector : Type 0 where
  pub cfg : DsnConfig
  pub encoded_attributes : Bytes

-- `newConnector`
unfoldable pub new_connector : Host → DsnConfig → Result Connector
unfolding encode_connection_attributes
new_connector host cfg =
    let encoded = encode_connection_attributes host cfg.connection_attributes in
    if ltb 250 (length encoded)
    then err (message (codes "connection attributes are longer than 250 bytes"))
    else ok (record { cfg = cfg; encoded_attributes = encoded })

-- `CreateConnector`
unfoldable pub create_connector : Registers → Host → Bytes → Result Connector
unfolding parse_dsn new_connector
create_connector registers host dsn = elim (parse_dsn registers dsn) as (λ r. Result Connector) [
  | panic ↦ panic
  | err e ↦ err e
  | ok cfg ↦ new_connector host cfg
]

-- `stringToInt` of mysql/utils.go, from a value on; the difference of the bytes wraps around.
unfoldable pub string_to_int : ℤ → Bytes → ℤ
string_to_int val [] = val
string_to_int val (b ∷ bs) =
    string_to_int (int_add (int_mul val (pos 10)) (pos ((b + 208) % 256))) bs

-- `defaultAuthPlugin`
abbrev pub default_auth_plugin : Bytes
default_auth_plugin = codes "mysql_native_password"

-- An error behind `mc.cleanup()`.
unfoldable pub or_cleanup : {A : Type 0} → Outcome A → (A → M (Unit {0})) → Outcome (Unit {0})
or_cleanup (done c (ok a)) next = next a c
or_cleanup (done c (err e)) next = done (cleanup c) (err e)
or_cleanup (done c panic) next = done c panic
or_cleanup stuck next = stuck

abbrev pub with_error : MysqlError → Outcome (Unit {0}) → Outcome (Unit {0})
with_error e (done c r) = done c (err e)
with_error e stuck = stuck

-- An error behind `mc.Close()`, whose own error is dropped.
unfoldable pub or_close : Sending → Outcome (Unit {0}) → M (Unit {0}) → Outcome (Unit {0})
unfolding close_conn
or_close env (done c (ok a)) next = next c
or_close env (done c (err e)) next = with_error e (close_conn env c)
or_close env (done c panic) next = done c panic
or_close env stuck next = stuck

-- The answer to the challenge, with the plugin: the default one where the requested one fails.
abbrev pub or_default : Result Bytes → Bytes → Result Bytes → Result (Bytes × Bytes)
or_default (ok reply) plugin default = ok (plugin, reply)
or_default panic plugin default = panic
or_default (err e) plugin (ok reply) = ok (default_auth_plugin, reply)
or_default (err e) plugin (err e') = err e'
or_default (err e) plugin panic = panic

-- mc.maxAllowedPacket, which is a natural number in the model: 0 stands for the -1 of an empty text or
-- of 0, and for what wraps around.
abbrev set_max : ℤ → M (Unit {0})
set_max n c = done (record c { max_allowed_packet = pos_part n }) (ok tt)

module _ {X : Type 0} (convert : Conversion → Bytes → Option X) (in_file : Bytes → M (Unit {0}))
    (fuel : ℕ) (env : ℕ → Sending) (room : ℕ) (crypto : Crypto)
    (tls_handshake : Option MysqlError) where
  -- From the size of packets on; `charsets` are the parameters of the map.
  unfoldable pub settle : DsnConfig → M (Unit {0})
  unfolding get_system_var handle_params string_to_int
  settle cfg c =
      let asked =
        and_then (get_system_var convert in_file fuel (env 5) (codes "max_allowed_packet") c)
          (λ text. set_max (int_add (string_to_int (pos 0) text) (negsuc 0))) in
      let sized =
        if ltb_ℤ (pos 0) cfg.max_allowed_packet then set_max cfg.max_allowed_packet c else asked in
      or_close (env 4) sized (λ d.
        or_close (env 4) (handle_params in_file fuel (λ k. env (k + 6)) cfg.collation cfg.params d)
          (λ e. done e (ok tt)))

  -- `Connect`, behind the dialling. `env` has the outcomes of the writes: of the response, of the
  -- authentication, of Close, and of the commands.
  unfoldable pub connect : Connector → M (Unit {0})
  unfolding read_handshake_packet auth write_handshake_response_packet handle_auth_result settle
      bytes_eq
  connect connector c =
      let configured = connector.cfg in
      or_cleanup
        (read_handshake_packet (has_tls configured) configured.allow_fallback_to_plaintext c)
        (λ greeting c1.
          let cfg = if greeting.drops_tls then record configured { tls = none } else configured in
          let plugin =
            if bytes_eq greeting.plugin [] then default_auth_plugin else greeting.plugin in
          let reply =
            or_default (auth crypto cfg greeting.auth_data plugin) plugin
              (auth crypto cfg greeting.auth_data default_auth_plugin) in
          or_cleanup (done c1 reply) (λ chosen c2.
            or_cleanup
              (write_handshake_response_packet env room tls_handshake cfg greeting.flags
                connector.encoded_attributes chosen.1 chosen.0 c2)
              (λ _ c3.
                or_cleanup
                  (handle_auth_result (λ k. env (k + 2)) room crypto cfg greeting.auth_data chosen.0
                    c3)
                  (λ _. settle cfg))))
