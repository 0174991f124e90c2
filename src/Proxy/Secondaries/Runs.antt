-- ===== src/Proxy/Secondaries/Runs.antt =====
-- Concrete source names, and the theorem on those of the proxy at a concrete replica.
use dbrwproxy.Prelude.{◌≡◌, refl, Bytes, codes, [], ◌∷◌, true, none, some, index_byte}
use dbrwproxy.Prelude.Int.{pos, negsuc}
use dbrwproxy.Prelude.Decimal.{itoa}
use dbrwproxy.Config.{SecondaryDb}
use dbrwproxy.Mysql.Errors.{ok}
use dbrwproxy.Mysql.Dsn.Cutting.{Lacks-lacks_byte}
use dbrwproxy.Mysql.Dsn.Params.{new_config, Registers}
use dbrwproxy.Mysql.Dsn.{parse_dsn}
use dbrwproxy.Proxy.Secondaries.{mysql_dsn}
use dbrwproxy.Proxy.Secondaries.Dsn.{parse-mysql_dsn, parsed_dsn}

abbrev registers : Registers
registers = record {
  tls_configs = λ name. none;
  server_keys = λ name. none;
  parse_duration = λ text. none;
  load_location = λ name. none;
}

abbrev replica : Bytes → Bytes → SecondaryDb
replica host password = record {
  name = codes "E";
  host = host;
  port = pos 3306;
  user = codes "root";
  password = password;
  db_name = codes "mydb";
  weight = pos 100;
  max_idle_conn_count = pos 1;
  max_open_conns_count = pos 10;
  conn_max_lifetime = pos 60;
}

abbrev tricky : SecondaryDb
tricky = replica (codes "10.0.0.7") (codes "a:b@c/(d)?e=%")

-- An address of IP version 6 loses its port to the default one.
six_runs :
    parse_dsn registers (mysql_dsn (replica (codes "::1") (codes "pw")))
    ≡ ok (record (parsed_dsn (replica (codes "::1") (codes "pw"))) {
      addr = codes "[::1:3306]:3306";
    })
unfolding parse_dsn mysql_dsn itoa index_byte
six_runs = refl

options_run :
    parse_dsn registers
      (codes "u@unix(/tmp/s)/d%41?parseTime=true&x=a%20b+c&tls=skip-verify&maxAllowedPacket=-5")
    ≡ ok (record new_config {
      user = codes "u";
      network = codes "unix";
      addr = codes "/tmp/s";
      db_name = codes "dA";
      params = (codes "x", codes "a b c") ∷ [];
      tls_config = codes "skip-verify";
      tls = some (record { server_name = []; insecure_skip_verify = true });
      max_allowed_packet = negsuc 4;
      parse_time = true;
    })
unfolding parse_dsn index_byte
options_run = refl

parse-mysql_dsn_example : parse_dsn registers (mysql_dsn tricky) ≡ ok (parsed_dsn tricky)
unfolding index_byte
parse-mysql_dsn_example =
    parse-mysql_dsn registers tricky (Lacks-lacks_byte b':' tricky.user refl)
      (Lacks-lacks_byte b':' tricky.host refl) (Lacks-lacks_byte b'@' tricky.host refl)
      (Lacks-lacks_byte b'[' tricky.host refl) (Lacks-lacks_byte b']' tricky.host refl)
      (Lacks-lacks_byte b'/' tricky.db_name refl) (Lacks-lacks_byte b'?' tricky.db_name refl)
      (Lacks-lacks_byte b'%' tricky.db_name refl)
