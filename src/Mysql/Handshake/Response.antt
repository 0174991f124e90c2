-- ===== src/Mysql/Handshake/Response.antt =====
-- mysql/packets.go: `writeHandshakeResponsePacket`. The handshake of TLS is an outcome that is given.
use dbrwproxy.Prelude.{
  ℕ, ◌+◌, ◌-◌, ◌/◌, ◌%◌, Bytes, codes, [], ◌∷◌, ◌++◌, Bool, not, Option, none, some, ltb, leb, ◌==◌,
  if◌then◌else◌, length, take, replicate, bytes_eq,
}
use dbrwproxy.Mysql.Errors.{MysqlError, message, bad_conn_no_write, Result, ok, err, panic}
use dbrwproxy.Mysql.Integers.{to_bytes}
use dbrwproxy.Mysql.LengthEncoded.{append_length_encoded_integer}
use dbrwproxy.Mysql.Dsn.Params.{DsnConfig}
use dbrwproxy.Mysql.Connection.{M, ◌>>=◌, ◌>>◌, lift, pure, fail}
use dbrwproxy.Mysql.Query.{Sending}
use dbrwproxy.Mysql.Query.Infile.{write_content}
use dbrwproxy.Mysql.Auth.Replies.{has_tls}
use dbrwproxy.Mysql.Handshake.Collations.{default_collation, collations, collation_id}

abbrev pub flag_if : Bool → ℕ → ℕ
flag_if set flag = if set then flag else 0

-- The capabilities, as a sum of different bits. The first are clientProtocol41, clientSecureConn,
-- clientLongPassword, clientTransactions, clientLocalFiles, clientPluginAuth, clientMultiResults and
-- clientConnectAttrs.
unfoldable pub client_flags : DsnConfig → ℕ → Bytes → ℕ
client_flags cfg server_flags lei =
    512
    + 32768
    + 1
    + 8192
    + 128
    + 524288
    + 131072
    + 1048576
    + flag_if (server_flags / 4 % 2 == 1) 4
    + flag_if cfg.client_found_rows 2
    + flag_if (has_tls cfg) 2048
    + flag_if cfg.multi_statements 65536
    + flag_if (ltb 1 (length lei)) 2097152
    + flag_if (not (bytes_eq cfg.db_name [])) 8

-- The payload up to the filler, which is also the request of TLS.
abbrev pub fixed_part : ℕ → ℕ → Bytes
fixed_part flags collation = to_bytes 4 flags ++ (replicate 4 0 ++ (collation ∷ replicate 23 0))

abbrev pub name_part : DsnConfig → Bytes → Bytes → Bytes
name_part cfg lei auth_resp =
    cfg.user
    ++ (0
        ∷ (lei ++ (auth_resp ++ (if bytes_eq cfg.db_name [] then [] else cfg.db_name ++ (0 ∷ [])))))

-- The plugin and the attributes, for which the packet has 21 bytes, two more, and the length of the
-- attributes: what does not fit is cut off by `copy`, or an index out of range.
unfoldable pub plugin_part : Bytes → Bytes → Result Bytes
plugin_part plugin attributes =
    let room = 23 + length attributes in
    if leb room (length plugin + 1)
    then panic
    else ok (plugin ++ (0 ∷ (length attributes % 256) ∷ take (room - length plugin - 2) attributes))

-- The length of the payload that the buffer is taken for.
abbrev pub payload_length : DsnConfig → Bytes → Bytes → Bytes → ℕ
payload_length cfg lei auth_resp attributes =
    4
    + 4
    + 1
    + 23
    + length cfg.user
    + 1
    + length lei
    + length auth_resp
    + 21
    + 1
    + (if bytes_eq cfg.db_name [] then 0 else length cfg.db_name + 1)
    + 1
    + length attributes

-- The number of the collation.
unfoldable pub chosen_collation : DsnConfig → Result ℕ
unfolding collations collation_id bytes_eq
chosen_collation cfg =
    let name = if bytes_eq cfg.collation [] then default_collation else cfg.collation in
    elim (collation_id name collations) as (λ r. Result ℕ) [
      | none ↦ err (message (codes "unknown collation: " ++ name))
      | some id ↦ ok id
    ]

-- `writeHandshakeResponsePacket`; `tls_handshake` is the error of tlsConn.Handshake().
unfoldable pub write_handshake_response_packet :
    (ℕ → Sending) → ℕ → Option MysqlError → DsnConfig → ℕ → Bytes → Bytes → Bytes → M (Unit {0})
unfolding client_flags plugin_part chosen_collation write_content append_length_encoded_integer
    to_bytes
write_handshake_response_packet env room tls_handshake cfg server_flags attributes auth_resp
      plugin =
    let lei = append_length_encoded_integer [] (length auth_resp) in
    let fixed = fixed_part (client_flags cfg server_flags lei) in
    let secured : M (Unit {0}) = elim tls_handshake as (λ r. M (Unit {0})) [
      | none ↦ pure tt
      | some e ↦ fail e
    ] in
    let sent = λ (id : ℕ).
      (if has_tls cfg then (write_content (env 0) (fixed id) >> secured) else pure tt)
      >> (lift (plugin_part plugin attributes) >>= λ last.
          write_content (env 1) (fixed id ++ (name_part cfg lei auth_resp ++ last))) in
    if (env 0).busy
    then fail bad_conn_no_write
    else if ltb room (payload_length cfg lei auth_resp attributes + 4)
    then lift panic
    else (lift (chosen_collation cfg) >>= sent)
