-- ===== src/Mysql/Query/Answer.antt =====
-- What a server answers to a SELECT, and `readColumns1` of mysql/packets.go on its columns.
use dbrwproxy.Prelude.{
  ℕ, zero, suc, ◌+◌, ◌≡◌, ◌<◌, refl, sym, ap, ◌∙◌, Bytes, List, [], ◌∷◌, ◌++◌, append_assoc, Bool,
  true, false, Option, none, some, arith, length, ◌==◌, length-append, append-nil, ltb,
  some-injective,
}
use dbrwproxy.Mysql.Errors.{MysqlError, ok}
use dbrwproxy.Mysql.Packets.{packet, read_packet, read_packet1}
use dbrwproxy.Mysql.Packets.Reading.{read_packet-relayed}
use dbrwproxy.Mysql.Packets.Joining.{stream, read_frames}
use dbrwproxy.Mysql.Packets.Frames.{frames, frames_end}
use dbrwproxy.Mysql.Packets.RoundTrip.{length-frames}
use dbrwproxy.Mysql.Fields.{ends_columns, parse_column}
use dbrwproxy.Mysql.Connection.{MysqlConn, MysqlField, done, relaying, taken_relayed}
use dbrwproxy.Mysql.Results.{columns_loop}

-- The packets of one payload, and the sequence number behind them.
abbrev pub packets : ℕ → Bytes → Bytes
packets sequence p = frames (suc (length p)) sequence p

abbrev pub next_sequence : ℕ → Bytes → ℕ
next_sequence sequence p = frames_end (suc (length p)) sequence (length p)

-- What a server sends for some payloads, with `rest` behind it.
abbrev pub sent : ℕ → List Bytes → Bytes → Bytes
sent sequence [] rest = rest
sent sequence (p ∷ ps) rest = packets sequence p ++ sent (next_sequence sequence p) ps rest

abbrev pub last_sequence : ℕ → List Bytes → ℕ
last_sequence sequence [] = sequence
last_sequence sequence (p ∷ ps) = last_sequence (next_sequence sequence p) ps

-- The connection behind a packet.
abbrev pub After : MysqlConn → MysqlConn → Bytes → ℕ → Type 0
After c d rest sequence =
    (d.stream ≡ stream rest sequence c.stream.canceled)
    × (d.closed ≡ c.closed)
    × (d.rows ≡ c.rows)
    × (d.settings ≡ c.settings)

read_packet1_frames :
    (sequence : ℕ) (p rest : Bytes) (canceled : Option MysqlError)
    → 0 < length p
    → (written : Bytes) × (read_packet1 (stream (packets sequence p ++ rest) sequence canceled)
        ≡ some (packet (stream rest (next_sequence sequence p) canceled) p, written))
unfolding read_packet
read_packet1_frames sequence p rest canceled some_bytes =
    let n = suc (length p) in
    let s = stream (packets sequence p ++ rest) sequence canceled in
    let (q, written, plain, relayed, _) = read_packet-relayed s in
    let here : read_packet s ≡ some (packet (stream rest (next_sequence sequence p) canceled) p) =
      read_frames n (suc (length s.incoming)) none sequence p rest canceled (omega arith)
        (omega (arith, length-append (packets sequence p) rest, length-frames n sequence p))
        some_bytes in
    (written, relayed ∙ ap (λ r. some (r, written)) (some-injective _ _ (sym plain ∙ here)))

pub relaying_packet :
    (c : MysqlConn) (sequence : ℕ) (p rest : Bytes)
    → 0 < length p
    → c.stream ≡ stream (packets sequence p ++ rest) sequence c.stream.canceled
    → (d : MysqlConn) × (relaying c ≡ done d (ok p)) × After c d rest (next_sequence sequence p)
unfolding relaying taken_relayed
relaying_packet c sequence p rest some_bytes at =
    let (written, e) = read_packet1_frames sequence p rest c.stream.canceled some_bytes in
    let d : MysqlConn = record c {
      to_client = c.to_client ++ written;
      stream = stream rest (next_sequence sequence p) c.stream.canceled;
    } in
    (d, ap (taken_relayed c) (ap read_packet1 at ∙ e), (refl, refl, refl, refl))

pub After-trans :
    (c d e : MysqlConn) (rest mid : Bytes) (i j : ℕ)
    → After c d mid i
    → After d e rest j
    → After c e rest j
After-trans c d e rest mid i j (same, shut, rows, settings) (same', shut', rows', settings') = (
  same' ∙ ap (stream rest j) (ap (λ s. s.canceled) same),
  shut' ∙ shut,
  rows' ∙ rows,
  settings' ∙ settings,
)

-- The definitions of some columns.
abbrev pub Defines : Bool → List Bytes → List MysqlField → Type 0
Defines alias [] [] = Unit {0}
Defines alias [] (column ∷ columns) = ⊥
Defines alias (p ∷ ps) [] = ⊥
Defines alias ([] ∷ ps) (column ∷ columns) = ⊥
Defines alias ((b ∷ bs) ∷ ps) (column ∷ columns) =
    (ends_columns (b ∷ bs) b ≡ false)
    × (parse_column alias true (b ∷ bs) ≡ ok column)
    × Defines alias ps columns

pub columns_end :
    (fuel count i sequence b : ℕ) (bs : Bytes) (alias : Bool) (c : MysqlConn) (ps : List Bytes)
    (before columns : List MysqlField) (rest : Bytes)
    → length ps < fuel
    → i + length ps ≡ count
    → Defines alias ps columns
    → ends_columns (b ∷ bs) b ≡ true
    → c.stream ≡ stream (sent sequence (ps ++ ((b ∷ bs) ∷ [])) rest) sequence c.stream.canceled
    → (d : MysqlConn) × (columns_loop relaying fuel count i before alias c
        ≡ done d (ok (before ++ columns)))
      × After c d rest (last_sequence sequence (ps ++ ((b ∷ bs) ∷ [])))
unfolding columns_loop
columns_end zero count i sequence b bs alias c ps before columns rest less sum def last at =
    absurd (omega arith)
columns_end (suc fuel) count i sequence b bs alias c [] before [] rest less sum def last at =
    let (d, e, after) = relaying_packet c sequence (b ∷ bs) rest (omega arith) at in
    let all : (i == count) ≡ true = ground arith in
    (d, simp (e, last, all, append-nil before), after)
columns_end (suc fuel) count i sequence b bs alias c [] before (column ∷ columns) rest less sum def
      last at =
    absurd def
columns_end (suc fuel) count i sequence b bs alias c (p ∷ ps) before [] rest less sum def last at =
    absurd def
columns_end (suc fuel) count i sequence b bs alias c ([] ∷ ps) before (column ∷ columns) rest less
      sum def last at =
    absurd def
columns_end (suc fuel) count i sequence b bs alias c ((x ∷ xs) ∷ ps) before (column ∷ columns) rest
      less sum (goes_on, parsed, def) last at =
    let (d, e, (same, shut, rows, settings)) =
      relaying_packet c sequence (x ∷ xs) _ (omega arith) at in
    let inside : ltb i count ≡ true = ground arith in
    let canceled : c.stream.canceled ≡ d.stream.canceled = sym (ap (λ s. s.canceled) same) in
    let (f, e', after) =
      columns_end fuel count (i + 1) (next_sequence sequence (x ∷ xs)) b bs alias d ps
        (before ++ (column ∷ [])) columns rest (omega arith) (omega arith) def last
        (same ∙ ap (stream _ (next_sequence sequence (x ∷ xs))) canceled) in
    (
      f,
      simp (e, goes_on, inside, parsed, e', append_assoc before (column ∷ []) columns),
      After-trans c d f rest _ (next_sequence sequence (x ∷ xs)) _ (same, shut, rows, settings)
          after,
    )
