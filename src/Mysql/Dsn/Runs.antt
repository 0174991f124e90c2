-- ===== src/Mysql/Dsn/Runs.antt =====
-- Concrete source names, and the theorem on them at a concrete configuration.
use dbrwproxy.Prelude.{
  ℕ, zero, suc, ◌≡◌, ◌≢◌, refl, ap, Bytes, codes, [], true, false, none, some, index_byte, bytes_eq,
  replicate, length, length-replicate, arith,
}
use dbrwproxy.Prelude.Int.{ℤ, pos, negsuc, ltb_ℤ}
use dbrwproxy.Mysql.Dsn.{parse_dsn, normalize}
use dbrwproxy.Mysql.Dsn.Cutting.{Lacks, Lacks-lacks_byte}
use dbrwproxy.Mysql.Dsn.Params.{DsnConfig, new_config, Registers, tls_value}
use dbrwproxy.Mysql.Dsn.Format.{format_dsn, query_escape}
use dbrwproxy.Mysql.Dsn.Format.RoundTrip.{Durations, parse-format_dsn}

-- A duration in ones.
abbrev unary : ℤ → Bytes
unary (pos n) = replicate n b'1'
unary (negsuc n) = []

abbrev registers : Registers
registers = record {
  tls_configs = λ name. none;
  server_keys = λ name. none;
  parse_duration = λ text. some (pos (length text));
  load_location = λ name. some name;
}

ones-Lacks : (c n : ℕ) → b'1' ≢ c → Lacks c (replicate n b'1')
ones-Lacks c zero h = tt
ones-Lacks c (suc n) h = (h, ones-Lacks c n h)

unary-Lacks : (c : ℕ) (d : ℤ) → b'1' ≢ c → Lacks c (unary d)
unary-Lacks c (pos n) h = ones-Lacks c n h
unary-Lacks c (negsuc n) h = tt

unary-parsed : (d : ℤ) → ltb_ℤ (pos 0) d ≡ true → registers.parse_duration (unary d) ≡ some d
unary-parsed (pos n) h = ap (λ k. some (pos k)) (length-replicate n b'1')
unary-parsed (negsuc n) h = absurd (ground arith)

unary-Durations : Durations unary registers
unary-Durations = record {
  parsed = unary-parsed;
  joins = λ d. unary-Lacks b'&' d (λ e. absurd (omega arith));
  slash = λ d. unary-Lacks b'/' d (λ e. absurd (omega arith));
}

abbrev sample : DsnConfig
sample = record new_config {
  user = codes "root";
  passwd = codes "p@ss:w/d";
  network = codes "tcp";
  addr = codes "db:3307";
  db_name = codes "a/b c?";
  connection_attributes = codes "k:v";
  collation = codes "utf8mb4_bin";
  loc = codes "US/Pacific";
  tls_config = codes "skip-verify";
  timeout = pos 3;
  max_allowed_packet = pos 0;
  check_conn_liveness = false;
  parse_time = true;
}

format_runs :
    format_dsn unary sample
    ≡ codes
        "root:p@ss:w/d@tcp(db:3307)/a%2Fb%20c%3F?checkConnLiveness=false&collation=utf8mb4_bin&loc=US%2FPacific&parseTime=true&timeout=111&tls=skip-verify&maxAllowedPacket=0"
unfolding format_dsn
format_runs = refl

parse-format_dsn_example :
    parse_dsn registers (format_dsn unary sample)
    ≡ normalize registers (record sample { connection_attributes = []; pub_key = none; tls = none })
unfolding index_byte tls_value bytes_eq query_escape
parse-format_dsn_example = parse-format_dsn unary registers unary-Durations sample (record {
  user_ends = Lacks-lacks_byte b':' sample.user refl;
  nobody = λ e. absurd (cc);
  network_ends = Lacks-lacks_byte b'(' sample.network refl;
  network_at = Lacks-lacks_byte b'@' sample.network refl;
  nowhere = λ e. absurd (cc);
  addr_at = Lacks-lacks_byte b'@' sample.addr refl;
  db_name_bytes = omega arith;
  collation_joins = Lacks-lacks_byte b'&' sample.collation refl;
  collation_slash = Lacks-lacks_byte b'/' sample.collation refl;
  loc_bytes = omega arith;
  loc_known = refl;
  key_bytes = tt;
  tls_bytes = omega arith;
  tls_named = refl;
  timeout_positive = refl;
  read_timeout_positive = refl;
  write_timeout_positive = refl;
  packet_bound = omega arith;
  no_params = refl;
})
