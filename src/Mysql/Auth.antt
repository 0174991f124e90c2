-- ===== src/Mysql/Auth.antt =====
-- mysql/auth.go: `handleAuthResult`, what follows the answer to a challenge; `readAuthResult` and
-- `writeAuthSwitchPacket` of mysql/packets.go.
pub mod Replies
pub mod Secrecy
mod Runs
use dbrwproxy.Prelude.{
  ℕ, zero, suc, ◌+◌, Bytes, codes, List, [], ◌∷◌, ◌++◌, Bool, true, false, ◌||◌, Option, none, some,
  ltb, ◌==◌, if◌then◌else◌, length, take, drop, index_byte, bytes_eq,
}
use dbrwproxy.Prelude.Int.{pos}
use dbrwproxy.Mysql.Errors.{
  message, Result, ok, err, panic, malform_pkt, bad_conn_no_write, busy_buffer,
}
use dbrwproxy.Mysql.Fields.{byte_at}
use dbrwproxy.Mysql.Dsn.Params.{DsnConfig}
use dbrwproxy.Mysql.Auth.Replies.{Crypto, auth, encrypt_password, has_tls, clear}
use dbrwproxy.Mysql.Connection.{M, ◌>>=◌, ◌>>◌, lift, pure, fail, plain}
use dbrwproxy.Mysql.Results.{handle_ok_packet, handle_error_packet}
use dbrwproxy.Mysql.Query.{Sending}
use dbrwproxy.Mysql.Query.Commands.{read_result_ok}
use dbrwproxy.Mysql.Query.Infile.{write_content}

-- `readAuthResult`: the data, which is nil in an OK packet and in an old request, and the plugin.
unfoldable pub read_auth_result : M (Option Bytes × Bytes)
unfolding plain byte_at handle_ok_packet handle_error_packet
read_auth_result = do
  bytes ← plain
  first ← lift (byte_at bytes (pos 0))
  let switched : M (Option Bytes × Bytes) =
      elim (index_byte bytes 0) as (λ r. M (Option Bytes × Bytes)) [
        | none ↦ fail malform_pkt
        | some end ↦ pure (some (drop (suc end) bytes), drop 1 (take end bytes))
      ]
  if first == 0
      then (handle_ok_packet bytes >>= λ _. pure (none, []))
      else if first == 1
      then pure (some (drop 1 bytes), [])
      else if first == 254
      then (if length bytes == 1 then pure (none, codes "mysql_old_password") else switched)
      else handle_error_packet bytes

-- `env` has the outcomes of the writes, one behind the other, and `room` is the length of the buffer.
module _ (env : ℕ → Sending) (room : ℕ) (crypto : Crypto) (cfg : DsnConfig) where
  -- `writeAuthSwitchPacket`, as the k-th write
  unfoldable pub write_auth_switch_packet : ℕ → Bytes → M (Unit {0})
  unfolding write_content
  write_auth_switch_packet k auth_data =
      if (env k).busy
      then fail bad_conn_no_write
      else if ltb room (4 + length auth_data)
      then lift panic
      else write_content (env k) auth_data

  -- `sendEncryptedPassword`
  unfoldable pub send_encrypted_password : ℕ → Bytes → Bytes → M (Unit {0})
  unfolding write_auth_switch_packet encrypt_password
  send_encrypted_password k seed pub_key =
      lift (encrypt_password crypto cfg.passwd seed pub_key) >>= write_auth_switch_packet k

  -- pem.Decode and x509.ParsePKIXPublicKey
  unfoldable pub key_of : Bytes → Result Bytes
  key_of text = elim (crypto.decode_pem text) as (λ r. Result Bytes) [
    | none ↦ err (message (codes "no pem data found, data: "))
    | some block ↦ crypto.parse_key block
  ]

  -- The key that the server is asked for.
  unfoldable pub request_key : ℕ → M Bytes
  unfolding write_auth_switch_packet plain byte_at key_of
  request_key k = if (env k).busy then fail busy_buffer else (do
    write_auth_switch_packet k (2 ∷ [])
    bytes ← plain
    first ← lift (byte_at bytes (pos 0))
    if first == 1
        then lift (key_of (drop 1 bytes))
        else fail (
            message (
              codes
                "unexpect resp from server for caching_sha2_password perform full authentication")))

  abbrev pub encrypted_answer : ℕ → Bytes → Option Bytes → M (Unit {0})
  encrypted_answer k seed none = request_key k >>= send_encrypted_password (k + 1) seed
  encrypted_answer k seed (some key) = send_encrypted_password k seed key

  unfoldable pub full_authentication : ℕ → Bytes → M (Unit {0})
  unfolding write_auth_switch_packet send_encrypted_password request_key bytes_eq read_result_ok
  full_authentication k seed =
      let sent =
        if has_tls cfg || bytes_eq cfg.network (codes "unix")
        then write_auth_switch_packet k (clear cfg)
        else encrypted_answer k seed cfg.pub_key in
      sent >> read_result_ok

  unfoldable pub caching_sha2_result : ℕ → Bytes → Bytes → M (Unit {0})
  unfolding full_authentication read_result_ok
  caching_sha2_result k seed [] = pure tt
  caching_sha2_result k seed (b ∷ []) =
      if b == 3
      then read_result_ok
      else if b == 4
      then full_authentication k seed
      else fail malform_pkt
  caching_sha2_result k seed (b ∷ c ∷ bs) = fail malform_pkt

  unfoldable pub sha256_result : ℕ → Bytes → Bytes → M (Unit {0})
  unfolding send_encrypted_password key_of read_result_ok
  sha256_result k seed [] = pure tt
  sha256_result k seed (b ∷ bs) = do
    key ← lift (key_of (b ∷ bs))
    send_encrypted_password k seed key
    read_result_ok

  -- The `switch` on the plugin behind the answers.
  unfoldable pub plugin_result : Bytes → ℕ → Bytes → Option Bytes → M (Unit {0})
  unfolding caching_sha2_result sha256_result bytes_eq
  plugin_result plugin k seed auth_data =
      let bytes = elim auth_data as (λ r. Bytes) [ none ↦ [] | some bs ↦ bs ] in
      if bytes_eq plugin (codes "caching_sha2_password")
      then caching_sha2_result k seed bytes
      else if bytes_eq plugin (codes "sha256_password")
      then sha256_result k seed bytes
      else pure tt

  -- copy(oldAuthData, authData)
  abbrev copied : Bytes → Bytes → Bytes
  copied old new = take (length old) new ++ drop (length new) old

  -- The second answer, with whether it names no plugin.
  abbrev pub switch_answered : Bool → Bytes → Bytes → Option Bytes → M (Unit {0})
  switch_answered true plugin seed auth_data = plugin_result plugin 1 seed auth_data
  switch_answered false plugin seed auth_data = fail malform_pkt

  abbrev pub behind_reply : Bytes → Bytes → Bytes → M (Unit {0})
  behind_reply plugin seed reply = write_auth_switch_packet 0 reply >>= λ _.
      read_auth_result >>= λ answer. switch_answered (bytes_eq answer.1 []) plugin seed answer.0

  -- A request to switch the plugin, for the first time.
  unfoldable pub switch_plugin : Bytes → Bytes → Option Bytes → M (Unit {0})
  unfolding auth write_auth_switch_packet read_auth_result plugin_result bytes_eq
  switch_plugin plugin old auth_data =
      let challenge = elim auth_data as (λ r. Bytes) [ none ↦ old | some bs ↦ bs ] in
      let seed = elim auth_data as (λ r. Bytes) [ none ↦ old | some bs ↦ copied old bs ] in
      lift (auth crypto cfg challenge plugin) >>= behind_reply plugin seed

  -- The first answer, with whether it names no plugin.
  abbrev pub first_answered : Bool → Bytes → Bytes → Bytes → Option Bytes → M (Unit {0})
  first_answered true new_plugin plugin old auth_data = plugin_result plugin 0 old auth_data
  first_answered false new_plugin plugin old auth_data = switch_plugin new_plugin old auth_data

  -- `handleAuthResult`
  unfoldable pub handle_auth_result : Bytes → Bytes → M (Unit {0})
  unfolding read_auth_result switch_plugin plugin_result bytes_eq
  handle_auth_result old plugin = read_auth_result >>= λ answer.
      first_answered (bytes_eq answer.1 []) answer.1 plugin old answer.0
