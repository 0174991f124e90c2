-- ===== src/Mysql/Query/Infile.antt =====
-- mysql/infile.go: `handleInFileRequest`, which sends a file or what a reader gives to the server.
-- The registers of files and readers, the files themselves and the reads are arguments.
use dbrwproxy.Prelude.{
  ℕ, ◌+◌, ◌-◌, ◌⊎◌, inl, inr, Bytes, List, [], ◌∷◌, Bool, ◌||◌, ◌&&◌, Option, none, some, min, ◌==◌,
  if◌then◌else◌, bytes_eq, codes, length, take, drop, get_or,
}
use dbrwproxy.Mysql.Errors.{MysqlError, message, ok, err, panic}
use dbrwproxy.Mysql.Packets.Writing.{Sink, write_packet}
use dbrwproxy.Mysql.Connection.{MysqlConn, Outcome, done, stuck, M, and_then, plain}
use dbrwproxy.Mysql.Query.{Sending, after_send, unset_reset, is_eof}
use dbrwproxy.Mysql.Query.Commands.{read_result_ok}

-- An open file or a reader: what its reads return, at most a packet's size of bytes and an error or
-- none, and the error of deferred_close it.
pub record Source : Type 0 where
  pub reads : List (Bytes × Option MysqlError)
  pub close_error : Option MysqlError

-- What stands outside the connection. A reader is `none` where its handler returns nil, and a file has
-- its size, or an error of opening it or of asking for that.
pub record Files : Type 0 where
  pub reader_register : Bytes → Option (Option Source)
  pub file_register : Bytes → Bool
  pub allow_all_files : Bool
  pub open_file : Bytes → (ℕ × Source) ⊎ MysqlError
  pub max_write_size : ℕ

-- strings.Index
unfoldable pub index_of : Bytes → Bytes → Option ℕ
index_of [] part = if bytes_eq part [] then some 0 else none
index_of (b ∷ bs) part =
    let later = elim (index_of bs part) as (λ r. Option ℕ) [
      | none ↦ none
      | some i ↦ some (i + 1)
    ] in
    if bytes_eq (take (length part) (b ∷ bs)) part then some 0 else later

-- strings.Trim(name, `"`)
trim_left : Bytes → Bytes
trim_left [] = []
trim_left (b ∷ bs) = let rest = trim_left bs in if b == 34 then rest else b ∷ bs

-- Without the quotes at the end.
trim_right : Bytes → Bytes
trim_right [] = []
trim_right (b ∷ bs) =
    let rest = trim_right bs in if b == 34 && bytes_eq rest [] then [] else b ∷ rest

-- The name of a reader, behind "Reader::" at the start or after a slash.
unfoldable pub reader_name : Bytes → Option Bytes
unfolding index_of
reader_name name = elim (index_of name (codes "Reader::")) as (λ r. Option Bytes) [
  | none ↦ none
  | some i ↦ if i == 0 || get_or name (i - 1) 0 == 47 then some (drop (i + 8) name) else none
]

-- What is to be sent, with the size of its packets, or an error.
unfoldable pub chosen : Files → Bytes → (ℕ × Source) ⊎ MysqlError
unfolding reader_name trim_left trim_right
chosen files name =
    let packet_size = min 16384 files.max_write_size in
    let file = trim_right (trim_left name) in
    let opened = elim (files.open_file file) as (λ r. (ℕ × Source) ⊎ MysqlError) [
      | inl (size, source) ↦ inl (min size packet_size, source)
      | inr e ↦ inr e
    ] in
    elim (reader_name name) as (λ r. (ℕ × Source) ⊎ MysqlError) [
      | none ↦
          if files.allow_all_files || files.file_register file then opened else inr (message [])
      | some reader ↦ elim (files.reader_register reader) as (λ r. (ℕ × Source) ⊎ MysqlError) [
        | none ↦ inr (message [])
        | some found ↦ elim found as (λ r. (ℕ × Source) ⊎ MysqlError) [
          | none ↦ inr (message [])
          | some source ↦ inl (packet_size, source)
        ]
      ]
    ]

abbrev sink_now : MysqlConn → Sink
sink_now c = record {
  sequence = c.stream.sequence;
  max_allowed_packet = c.max_allowed_packet;
  reset = c.reset;
  canceled = c.stream.canceled;
}

-- mc.conn().writePacket, within a sequence of packets
unfoldable pub write_content : Sending → Bytes → M (Unit {0})
unfolding after_send
write_content env content c =
    after_send (unset_reset (length content) c)
      (write_packet env.net env.alive (sink_now c) (0 ∷ 0 ∷ 0 ∷ 0 ∷ content))

module _ (env : ℕ → Sending) where
  -- The loop of the content packets: the number of writes, and the error that ended the reads, where
  -- io.EOF is none. A reader that never ends makes it go on for ever.
  content_loop : ℕ → List (Bytes × Option MysqlError) → M (ℕ × Option MysqlError)
  unfolding write_content is_eof
  content_loop k [] c = stuck
  content_loop k ((content, none) ∷ reads) c =
      let more = content_loop (k + 1) reads in
      let write = and_then (write_content (env k) content c) (λ _. more) in
      if bytes_eq content [] then more c else write
  content_loop k ((content, some e) ∷ reads) c =
      let left : Option MysqlError = if is_eof e then none else some e in
      let write = and_then (write_content (env k) content c) (λ _ d. done d (ok (k + 1, left))) in
      if bytes_eq content [] then done c (ok (k, left)) else write

  -- The reply, which is looked at where there was no error only.
  reply : Option MysqlError → M (Unit {0})
  unfolding read_result_ok plain
  reply none c = read_result_ok c
  reply (some e) c = elim (plain c) as (λ o. Outcome (Unit {0})) [
    | done d r ↦ done d (err e)
    | stuck ↦ stuck
  ]

  send_end : ℕ × Option MysqlError → M (Unit {0})
  unfolding write_content reply
  send_end (k, left) c = and_then (write_content (env k) [] c) (λ _. reply left)

  -- `deferredClose`
  deferred_close : Option MysqlError → Outcome (Unit {0}) → Outcome (Unit {0})
  deferred_close (some e) (done c (ok _)) = done c (err e)
  deferred_close none (done c (ok _)) = done c (ok tt)
  deferred_close e (done c (err x)) = done c (err x)
  deferred_close e (done c panic) = done c panic
  deferred_close e stuck = stuck

  -- `handleInFileRequest`
  unfoldable pub handle_in_file_request : Files → Bytes → M (Unit {0})
  unfolding chosen content_loop send_end deferred_close
  handle_in_file_request files name c = elim (chosen files name) as (λ r. Outcome (Unit {0})) [
    | inr e ↦ send_end (0, some e) c
    | inl (packet_size, source) ↦
        let nothing = send_end (0, none) c in
        let content = and_then (content_loop 0 source.reads c) send_end in
        deferred_close source.close_error (if packet_size == 0 then nothing else content)
  ]
