-- ===== src/Mysql/Packets.antt =====
-- mysql/packets.go: reading a packet, and reading one while relaying it to a client.
-- The network is the bytes that are still to come: `readNext` gets as many as it asks for or fails.
-- After `mc.Close()`, or a cancelation, which has closed the connection as well, nothing of the
-- connection is used again, so a result that comes with it has no connection.
pub mod Reading
pub mod Writing
pub mod Frames
pub mod Joining
pub mod RoundTrip
pub mod Failures
mod Runs
use dbrwproxy.Prelude.{
  ℕ, zero, suc, ◌+◌, ◌*◌, ◌%◌, Bytes, List, [], ◌∷◌, ◌++◌, Bool, true, false, Option, none, some,
  ltb, leb, ◌==◌, if◌then◌else◌, length, take, drop, get_or,
}
use dbrwproxy.Mysql.Errors.{MysqlError, invalid_conn, pkt_sync, pkt_sync_mul}

abbrev pub max_packet_size : ℕ
max_packet_size = 16777215

-- What reading needs of a `MysqlConn`; `sequence` is a uint8, `canceled` what `mc.canceled` holds.
pub record Stream : Type 0 where
  pub incoming : Bytes
  pub sequence : ℕ
  pub canceled : Option MysqlError

-- A packet, an error with the connection still open, or an error after the connection was closed.
pub data PacketRead : Type 0 where
  packet : Stream → Bytes → PacketRead
  refused : Stream → MysqlError → PacketRead
  dropped : MysqlError → PacketRead

-- What one round of the loop comes to: a return, or another round with `prevData`.
pub data Round : Type 0 where
  done : PacketRead → Round
  again : Bytes → Stream → Round

-- mc.buf.readNext(need)
unfoldable pub read_next : ℕ → Bytes → Option (Bytes × Bytes)
read_next need bs = if leb need (length bs) then some (take need bs, drop need bs) else none

-- int(uint32(data[0]) | uint32(data[1])<<8 | uint32(data[2])<<16)
abbrev pub packet_length : Bytes → ℕ
packet_length bytes = get_or bytes 0 0 + get_or bytes 1 0 * 256 + get_or bytes 2 0 * 65536

-- The error of a read that failed.
abbrev pub read_error : Option MysqlError → MysqlError
read_error none = invalid_conn
read_error (some cerr) = cerr

-- append(prevData, data...)
abbrev pub append_to : Option Bytes → Bytes → Bytes
append_to none bytes = bytes
append_to (some prev) bytes = prev ++ bytes

-- A packet of length 0 ends one of a multiple of `max_packet_size` bytes.
abbrev pub terminate : Option Bytes → Stream → Round
terminate none s = done (dropped invalid_conn)
terminate (some prev) s = done (packet s prev)

unfoldable pub read_body : Option Bytes → ℕ → Stream → Option (Bytes × Bytes) → Round
read_body prev n s none = done (dropped (read_error s.canceled))
read_body prev n s (some (bytes, rest)) =
    if ltb n max_packet_size
    then done (packet (record s { incoming = rest }) (append_to prev bytes))
    else again (append_to prev bytes) (record s { incoming = rest })

-- data[3] against mc.sequence
abbrev pub sync_error : ℕ → ℕ → MysqlError
sync_error got sequence = if ltb sequence got then pkt_sync_mul else pkt_sync

unfoldable pub read_header : Option Bytes → Stream → Option (Bytes × Bytes) → Round
unfolding read_next read_body
read_header prev s none = done (dropped (read_error s.canceled))
read_header prev s (some (bytes, rest)) =
    let n = packet_length bytes in
    let next : Stream = record s { incoming = rest; sequence = (s.sequence + 1) % 256 } in
    if get_or bytes 3 0 == s.sequence
    then (if n == 0 then terminate prev next else read_body prev n next (read_next n rest))
    else done (refused (record s { incoming = rest }) (sync_error (get_or bytes 3 0) s.sequence))

-- The loop of `readPacket`; `none` means that the fuel has run out.
unfoldable pub read_loop : ℕ → Option Bytes → Stream → Option PacketRead
unfolding read_header
read_loop zero prev s = none
read_loop (suc fuel) prev s = elim (read_header prev s (read_next 4 s.incoming)) [
  | done p ↦ some p
  | again bytes next ↦ read_loop fuel (some bytes) next
]

-- Each round takes the four bytes of a header.
unfoldable pub read_packet : Stream → Option PacketRead
unfolding read_loop
read_packet s = read_loop (suc (length s.incoming)) none s

-- `readPacket1` writes what it reads to `dstConn`, whatever becomes of that write.
unfoldable pub relay_body :
    Option Bytes → ℕ → Stream → Bytes → Option (Bytes × Bytes) → Round × Bytes
relay_body prev n s out none = (done (dropped (read_error s.canceled)), out)
relay_body prev n s out (some (bytes, rest)) =
    if ltb n max_packet_size
    then (done (packet (record s { incoming = rest }) (append_to prev bytes)), out ++ bytes)
    else (again (append_to prev bytes) (record s { incoming = rest }), out ++ bytes)

unfoldable pub relay_header : Option Bytes → Stream → Bytes → Option (Bytes × Bytes) → Round × Bytes
unfolding read_next relay_body
relay_header prev s out none = (done (dropped (read_error s.canceled)), out)
relay_header prev s out (some (bytes, rest)) =
    let n = packet_length bytes in
    let next : Stream = record s { incoming = rest; sequence = (s.sequence + 1) % 256 } in
    if get_or bytes 3 0 == s.sequence
    then (if n == 0
        then (terminate prev next, out ++ bytes)
        else relay_body prev n next (out ++ bytes) (read_next n rest))
    else (
      done (refused (record s { incoming = rest }) (sync_error (get_or bytes 3 0) s.sequence)),
      out ++ bytes,
    )

unfoldable pub relay_loop : ℕ → Option Bytes → Stream → Bytes → Option (PacketRead × Bytes)
unfolding relay_header
relay_loop zero prev s out = none
relay_loop (suc fuel) prev s out =
    let (round, written) = relay_header prev s out (read_next 4 s.incoming) in
    elim round [
      | done p ↦ some (p, written)
      | again bytes next ↦ relay_loop fuel (some bytes) next written
    ]

unfoldable pub read_packet1 : Stream → Option (PacketRead × Bytes)
unfolding relay_loop
read_packet1 s = relay_loop (suc (length s.incoming)) none s []
