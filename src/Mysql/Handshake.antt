-- ===== src/Mysql/Handshake.antt =====
-- mysql/packets.go: `readHandshakePacket`. The code slices the packet at `pos`; here is what stands behind
-- it. A slice that ends behind the packet is a panic: whether the buffer goes on there is left out.
pub mod Greeting
pub mod Collations
pub mod Response
mod Runs
use dbrwproxy.Prelude.{
  ℕ, zero, suc, ◌+◌, ◌*◌, ◌/◌, ◌%◌, Bytes, codes, List, [], ◌∷◌, ◌++◌, Bool, true, false, not, ◌&&◌,
  Option, none, some, ltb, ◌==◌, if◌then◌else◌, length, take, drop, index_byte,
}
use dbrwproxy.Prelude.Int.{pos}
use dbrwproxy.Mysql.Fields.{byte_at}
use dbrwproxy.Mysql.Connection.{M, MysqlConn, Outcome, done, stuck, and_then, lift, plain}
use dbrwproxy.Mysql.Results.{handle_error_packet}
use dbrwproxy.Mysql.Errors.{
  MysqlError, message, old_protocol, no_tls, bad_conn, invalid_conn, Result, ok, err, panic, ◌>>=◌,
}
use dbrwproxy.Mysql.Fields.{or_panic}
use dbrwproxy.Mysql.Integers.{from_bytes}

-- What is read; `drops_tls` tells that mc.cfg.TLS is set to nil.
pub record Handshake : Type 0 where
  pub auth_data : Bytes
  pub plugin : Bytes
  pub flags : ℕ
  pub drops_tls : Bool

-- data[pos : pos+n]
unfoldable pub slice : ℕ → Bytes → Result Bytes
slice n rest = if ltb (length rest) n then panic else ok (take n rest)

-- mc.flags & clientProtocol41 != 0 and mc.flags & clientSSL != 0
abbrev pub speaks_41 : ℕ → Bool
speaks_41 flags = flags / 512 % 2 == 1

abbrev pub offers_ssl : ℕ → Bool
offers_ssl flags = flags / 2048 % 2 == 1

-- Up to a zero byte, or all.
unfoldable pub until_zero : Bytes → Bytes
until_zero bytes = elim (index_byte bytes 0) as (λ r. Bytes) [
  | none ↦ bytes
  | some end ↦ take end bytes
]

-- Behind the capability flags.
unfoldable pub second_part : Bytes → ℕ → Bool → Bytes → Result Handshake
unfolding slice until_zero
second_part auth_data flags drops [] =
    ok (record { auth_data = auth_data; plugin = []; flags = flags; drops_tls = drops })
second_part auth_data flags drops (b ∷ bs) =
    let rest = drop 16 (b ∷ bs) in
    slice 12 rest >>= λ more. slice 13 rest >>= λ ended. ok (record {
      auth_data = auth_data ++ more;
      plugin = until_zero (drop 13 rest);
      flags = flags;
      drops_tls = drops;
    })

-- Whether TLS is given up, where it is configured and the server does not offer it.
unfoldable pub settle_tls : Bool → Bool → ℕ → Result Bool
settle_tls has_tls allow_fallback flags =
    if not (offers_ssl flags) && has_tls
    then (if allow_fallback then ok true else err no_tls)
    else ok false

-- `readHandshakePacket`, of a packet that is no error packet.
unfoldable pub parse_handshake : Bool → Bool → Bytes → Result Handshake
unfolding slice second_part settle_tls from_bytes
parse_handshake has_tls allow_fallback [] = panic
parse_handshake has_tls allow_fallback (version ∷ bytes) =
    let start = elim (index_byte bytes 0) as (λ r. ℕ) [ none ↦ 4 | some end ↦ end + 5 ] in
    let rest = drop start bytes in
    if ltb version 10
    then err (message (codes "unsupported protocol version"))
    else slice 8 rest >>= λ auth_data. or_panic (from_bytes 2 (drop 9 rest)) >>= λ flags.
        if not (speaks_41 flags)
        then err old_protocol
        else settle_tls has_tls allow_fallback flags >>= λ drops.
            second_part auth_data flags drops (drop 11 rest)

-- An error of reading, for database/sql to try again.
abbrev pub retried : MysqlError → MysqlError
retried invalid_conn = bad_conn
retried e = e

abbrev pub retried_read : Outcome Bytes → Outcome Bytes
retried_read (done c (err e)) = done c (err (retried e))
retried_read (done c (ok bytes)) = done c (ok bytes)
retried_read (done c panic) = done c panic
retried_read stuck = stuck

-- `readHandshakePacket`
unfoldable pub read_handshake_packet : Bool → Bool → M Handshake
unfolding plain byte_at handle_error_packet parse_handshake
read_handshake_packet has_tls allow_fallback c = and_then (retried_read (plain c)) (λ bytes d.
    and_then (done d (byte_at bytes (pos 0))) (λ first.
      if first == 255
      then handle_error_packet bytes
      else lift (parse_handshake has_tls allow_fallback bytes)))
