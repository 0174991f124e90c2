-- ===== src/Mysql/Packets/Runs.antt =====
-- Runs of the packets of mysql/packets.go, and the theorems at inputs.
use dbrwproxy.Prelude.{
  ℕ, zero, suc, ◌≡◌, refl, Bytes, [], ◌∷◌, ◌++◌, true, none, some, length, take, arith, ap,
}
use dbrwproxy.Mysql.Errors.{invalid_conn, pkt_sync_mul, bad_conn_no_write}
use dbrwproxy.Mysql.Packets.{
  Stream, PacketRead, packet, refused, dropped, read_packet, read_packet1, max_packet_size,
}
use dbrwproxy.Mysql.Packets.Reading.{Delivered, read_packet-relayed}
use dbrwproxy.Mysql.Packets.Writing.{Sink, Outcome, whole, failed_empty, header_bytes, write_packet}
use dbrwproxy.Mysql.Packets.RoundTrip.{read-write_packet}
use dbrwproxy.Mysql.Packets.Failures.{bad_conn_after_write}

-- A packet of two bytes, and one byte behind it.
abbrev two_bytes : Stream
two_bytes = record { incoming = 2 ∷ 0 ∷ 0 ∷ 5 ∷ 7 ∷ 8 ∷ 9 ∷ []; sequence = 5; canceled = none }

abbrev behind_two : Stream
behind_two = record { incoming = 9 ∷ []; sequence = 6; canceled = none }

two_relayed :
    read_packet1 two_bytes ≡ some (packet behind_two (7 ∷ 8 ∷ []), 2 ∷ 0 ∷ 0 ∷ 5 ∷ 7 ∷ 8 ∷ [])
unfolding read_packet1
two_relayed = refl

-- A packet out of order, and one that is cut off.
out_of_order :
    read_packet (record two_bytes { sequence = 4 })
    ≡ some
        (refused (record { incoming = 7 ∷ 8 ∷ 9 ∷ []; sequence = 4; canceled = none }) pkt_sync_mul)
unfolding read_packet
out_of_order = refl

cut_off :
    read_packet (record two_bytes { incoming = 2 ∷ 0 ∷ 0 ∷ 5 ∷ 7 ∷ [] })
    ≡ some (dropped invalid_conn)
unfolding read_packet
cut_off = refl

read_packet-relayed_example :
    (p : PacketRead) × (written : Bytes) × (read_packet two_bytes ≡ some p)
    × (read_packet1 two_bytes ≡ some (p, written))
    × Delivered two_bytes.incoming written p
read_packet-relayed_example = read_packet-relayed two_bytes

abbrev sink : Sink
sink = record { sequence = 255; max_allowed_packet = 67108864; reset = true; canceled = none }

abbrev room : Bytes
room = 0 ∷ 0 ∷ 0 ∷ 0 ∷ []

read-write_packet_example :
    (sent : Bytes) × (last : ℕ) × (write_packet (λ k. whole) true sink (room ++ (3 ∷ 65 ∷ []))
      ≡ some (sent, last, none))
    × (read_packet (record { incoming = sent ++ (1 ∷ []); sequence = 255; canceled = none })
        ≡ some
            (packet (record { incoming = 1 ∷ []; sequence = last; canceled = none }) (3 ∷ 65 ∷ [])))
read-write_packet_example =
    read-write_packet (λ k. whole) true sink room (3 ∷ 65 ∷ []) (1 ∷ []) none (λ i. refl) refl
      (omega arith) (omega arith) refl

-- The first write goes through, and no other.
abbrev then_fails : ℕ → Outcome
then_fails zero = whole
then_fails (suc k) = failed_empty

-- A long payload, which is not computed.
unfoldable repeated : ℕ → ℕ → Bytes
repeated zero b = []
repeated (suc n) b = b ∷ repeated n b

length-repeated : (n b : ℕ) → length (repeated n b) ≡ n
unfolding repeated
length-repeated zero b = refl
length-repeated (suc n) b = ap suc (length-repeated n b)

bad_conn_after_write_example :
    write_packet then_fails true sink (room ++ repeated 16777215 7)
    ≡ some (
      header_bytes 255 max_packet_size ++ take max_packet_size (repeated 16777215 7),
      0,
      some bad_conn_no_write,
    )
bad_conn_after_write_example =
    bad_conn_after_write then_fails true sink room (repeated 16777215 7) refl refl refl refl
      (omega (arith, length-repeated 16777215 7)) (omega (arith, length-repeated 16777215 7)) refl
