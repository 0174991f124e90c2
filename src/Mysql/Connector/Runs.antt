-- ===== src/Mysql/Connector/Runs.antt =====
-- Concrete connections that are given up, and the theorem on them at a concrete input.
use dbrwproxy.Prelude.{
  index_byte, ℕ, ◌≡◌, refl, Bytes, codes, [], ◌∷◌, true, false, none, Option, replicate, ◌++◌,
}
use dbrwproxy.Prelude.Int.{pos, int_add, int_mul}
use dbrwproxy.Prelude.Decimal.{itoa}
use dbrwproxy.Mysql.LengthEncoded.{append_length_encoded_integer}
use dbrwproxy.Mysql.Errors.{ok, panic}
use dbrwproxy.Mysql.Values.{Conversion}
use dbrwproxy.Mysql.Packets.Writing.{whole}
use dbrwproxy.Mysql.Connection.{MysqlConn, done, M}
use dbrwproxy.Mysql.Dsn.Params.{new_config}
use dbrwproxy.Mysql.Query.{Sending}
use dbrwproxy.Mysql.Auth.Replies.{Crypto}
use dbrwproxy.Mysql.Connector.{Connector, connect, encode_connection_attributes, string_to_int}
use dbrwproxy.Mysql.Connector.Failing.{ClosesOnError, connect-ClosesOnError}

abbrev dull : Crypto
dull = record {
  sha1 = λ bytes. replicate 20 0;
  sha256 = λ bytes. replicate 32 0;
  encrypt_oaep = λ plain key. none;
  decode_pem = λ text. none;
  parse_key = λ block. panic;
}

abbrev all_sent : ℕ → Sending
all_sent k = record { net = λ i. whole; alive = true; busy = false }

abbrev dialled : Bytes → MysqlConn
dialled bytes = record {
  stream = record { incoming = bytes; sequence = 0; canceled = none };
  closed = false;
  status = 0;
  affected_rows = [];
  insert_ids = [];
  settings = record { reject_read_only = false; columns_with_alias = false; parse_time = false };
  rows = record { has_conn = false; columns = []; done = false };
  max_allowed_packet = 16777215;
  reset = false;
  to_server = [];
  to_client = [];
}

abbrev plain_connector : Connector
plain_connector = record {
  cfg = record new_config { user = codes "root"; passwd = codes "a"; network = codes "tcp" };
  encoded_attributes = [];
}

abbrev no_values : Conversion → Bytes → Option ℕ
no_values c text = none

abbrev no_file : Bytes → M (Unit {0})
no_file name c = done c (ok tt)

-- The server has too many connections: its first packet is an error.
abbrev refusing : MysqlConn
refusing = dialled (9 ∷ 0 ∷ 0 ∷ 0 ∷ 0xFF ∷ 0x10 ∷ 0x04 ∷ codes "Too ma")

connect-ClosesOnError_example :
    ClosesOnError (connect no_values no_file 5 all_sent 1000 dull none plain_connector refusing)
connect-ClosesOnError_example =
    connect-ClosesOnError no_values no_file 5 all_sent 1000 dull none plain_connector refusing

attributes_run :
    encode_connection_attributes
      (record { os = codes "linux"; arch = codes "amd64"; pid = 7 })
      (codes "a:b,c,d:e:f")
    ≡ 12 ∷ codes "_client_name"
      ++ 15 ∷ codes "Go-MySQL-Driver"
      ++ 3 ∷ codes "_os"
      ++ 5 ∷ codes "linux"
      ++ 9 ∷ codes "_platform"
      ++ 5 ∷ codes "amd64"
      ++ 4 ∷ codes "_pid"
      ++ 1 ∷ codes "7"
      ++ 1 ∷ codes "a"
      ++ 1 ∷ codes "b"
      ++ 1 ∷ codes "d"
      ++ 3 ∷ codes "e:f"
unfolding encode_connection_attributes index_byte append_length_encoded_integer itoa
attributes_run = refl

-- A size that is no number: the byte - 0x30 wraps around.
size_run : string_to_int (pos 0) (codes "1/") ≡ pos 265
unfolding string_to_int int_add int_mul
size_run = refl
