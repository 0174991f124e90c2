-- ===== src/Mysql/Packets/Writing.antt =====
-- mysql/packets.go: `writePacket`.
-- The slice `bytes` has four bytes of room for a header in front of the payload. The k-th write of a
-- call has an outcome, and `sent` collects the writes that went through whole.
use dbrwproxy.Prelude.{
  ℕ, zero, suc, ◌+◌, ◌-◌, ◌/◌, ◌%◌, Bytes, [], ◌∷◌, ◌++◌, Bool, true, false, not, ◌&&◌, Option,
  none, some, ltb, leb, ◌==◌, if◌then◌else◌, length, take, drop,
}
use dbrwproxy.Mysql.Errors.{
  MysqlError, invalid_conn, pkt_too_large, bad_conn, bad_conn_no_write, network,
}
use dbrwproxy.Mysql.Packets.{max_packet_size}

pub record Sink : Type 0 where
  pub sequence : ℕ
  pub max_allowed_packet : ℕ
  -- The flag `reset`: the next write is the first since the connection was lent.
  pub reset : Bool
  pub canceled : Option MysqlError

-- A write that succeeds, one that is short without an error, a deadline that cannot be set, and an
-- error before the first byte or behind it.
pub data Outcome : Type 0 where
  whole short no_deadline failed_empty failed_partly : Outcome

-- What a call leaves: the bytes sent, the sequence number and the error.
abbrev pub Sent : Type 0
Sent = Bytes × ℕ × Option MysqlError

abbrev pub header_bytes : ℕ → ℕ → Bytes
header_bytes sequence n = n % 256 ∷ n / 256 % 256 ∷ n / 65536 % 256 ∷ sequence ∷ []

-- data[0], data[1], data[2] and data[3]
abbrev pub with_header : ℕ → ℕ → Bytes → Bytes
with_header sequence pkt_len bytes =
    (if leb max_packet_size pkt_len
      then 0xff ∷ 0xff ∷ 0xff ∷ sequence ∷ []
      else header_bytes sequence pkt_len)
    ++ drop 4 bytes

abbrev pub frame_size : ℕ → ℕ
frame_size pkt_len = if leb max_packet_size pkt_len then max_packet_size else pkt_len

-- An error with nothing written by the call of Write.
abbrev pub write_error : Option MysqlError → Bool → MysqlError
write_error (some cerr) empty = cerr
write_error none true = bad_conn_no_write
write_error none false = invalid_conn

-- What a round does with its write; `more` is the rest of the loop.
unfoldable pub after_write :
    (Bytes → ℕ → Bytes → Option Sent)
    → Outcome
    → Option MysqlError
    → ℕ
    → ℕ
    → ℕ
    → Bytes
    → Bytes
    → Option Sent
after_write more whole canceled sequence pkt_len size bytes sent =
    let rest = more (drop size bytes) (pkt_len - size) (sent ++ take (4 + size) bytes) in
    if not (size == max_packet_size)
    then some (sent ++ take (4 + size) bytes, (sequence + 1) % 256, none)
    else rest
after_write more short canceled sequence pkt_len size bytes sent =
    some (sent, sequence, some invalid_conn)
after_write more no_deadline canceled sequence pkt_len size bytes sent =
    some (sent, sequence, some network)
after_write more failed_empty canceled sequence pkt_len size bytes sent =
    some (sent, sequence, some (write_error canceled (pkt_len == length bytes - 4)))
after_write more failed_partly canceled sequence pkt_len size bytes sent =
    some (sent, sequence, some (write_error canceled false))

-- `none` means that the fuel has run out.
unfoldable pub write_loop :
    ℕ → (ℕ → Outcome) → Option MysqlError → ℕ → ℕ → Bytes → ℕ → Bytes → Option Sent
unfolding after_write
write_loop zero net canceled k sequence bytes pkt_len sent = none
write_loop (suc fuel) net canceled k sequence bytes pkt_len sent =
    after_write (write_loop fuel net canceled (k + 1) ((sequence + 1) % 256)) (net k) canceled
      sequence pkt_len (frame_size pkt_len) (with_header sequence pkt_len bytes) sent

-- `alive` is the outcome of the check of a stale connection, and the slice has at least four bytes.
unfoldable pub write_packet : (ℕ → Outcome) → Bool → Sink → Bytes → Option Sent
unfolding write_loop
write_packet net alive s bytes =
    let pkt_len = length bytes - 4 in
    let written = write_loop (suc pkt_len) net s.canceled 0 s.sequence bytes pkt_len [] in
    if ltb s.max_allowed_packet pkt_len
    then some ([], s.sequence, some pkt_too_large)
    else if s.reset && not alive
    then some ([], s.sequence, some bad_conn)
    else written
