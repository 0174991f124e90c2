-- ===== src/Proxy/Secondaries/Dsn.antt =====
-- The source name that `initMysqlDB` of proxy/mysql.go prints, and what `ParseDSN` of mysql/dsn.go,
-- to which `CreateConnector` hands it, makes of it.
use dbrwproxy.Prelude.{
  ℕ, ◌≡◌, ◌≢◌, refl, ap, ◌∙◌, Bytes, codes, [], ◌∷◌, ◌++◌, append_assoc, false, some, All-append,
  length, arith, take-append_length, bytes_eq,
}
use dbrwproxy.Prelude.Decimal.{itoa, IsDigit}
use dbrwproxy.Config.{SecondaryDb}
use dbrwproxy.Mysql.Errors.{ok}
use dbrwproxy.Mysql.Dsn.Text.{split_host_port, split_plain, last_index_byte, unescape}
use dbrwproxy.Mysql.Dsn.Cutting.{
  Lacks, differs, lacks_byte-Lacks, index_byte-Lacks, last_index_byte-append, drop_past,
}
use dbrwproxy.Mysql.Dsn.Numbers.{itoa-Lacks}
use dbrwproxy.Mysql.Dsn.Format.Front.{
  parse_dsn-cut, credentials-printed, network_address-printed, before_slash-at,
}
use dbrwproxy.Mysql.Dsn.Params.{DsnConfig, new_config, Registers}
use dbrwproxy.Mysql.Dsn.{
  ensure_have_port, normalize, normalize_address, normalize_tls, normalize_key, network_address,
  before_slash, after_slash, db_name_of, parse_dsn,
}
use dbrwproxy.Proxy.Secondaries.{mysql_dsn}

-- What SplitHostPort asks of a host without brackets, and of a port.
abbrev IsPart : Bytes → Type 0
IsPart xs = Lacks b':' xs × (Lacks b'[' xs × Lacks b']' xs)

joined-Lacks :
    (c : ℕ) (host port : Bytes)
    → b':' ≢ c
    → Lacks c host
    → Lacks c port
    → Lacks c (host ++ (b':' ∷ port))
joined-Lacks c host port h hc pc = All-append (λ b. b ≢ c) host (b':' ∷ port) hc (h, pc)

split_plain-joined :
    (host port : Bytes)
    → IsPart host
    → IsPart port
    → split_plain (host ++ (b':' ∷ port)) (length host) ≡ some (host, port)
unfolding split_plain
split_plain-joined host port (hc, (ho, hs)) (pc, (po, ps)) =
    rw
      (
        take-append_length host (b':' ∷ port),
        drop_past b':' host port,
        lacks_byte-Lacks b':' host hc,
        lacks_byte-Lacks b'[' (host ++ (b':' ∷ port))
            (joined-Lacks b'[' host port (omega arith) ho po),
        lacks_byte-Lacks b']' (host ++ (b':' ∷ port))
            (joined-Lacks b']' host port (omega arith) hs ps),
      )
      refl

split_host_port-plain :
    (b : ℕ) (bs : Bytes) (i : ℕ)
    → last_index_byte (b ∷ bs) b':' ≡ some i
    → b ≢ b'['
    → split_host_port (b ∷ bs) ≡ split_plain (b ∷ bs) i
unfolding split_host_port
split_host_port-plain b bs i e h = rw (split_host_port, e, differs b b'[' h) refl

split_host_port-joined :
    (host port : Bytes)
    → IsPart host
    → IsPart port
    → split_host_port (host ++ (b':' ∷ port)) ≡ some (host, port)
split_host_port-joined [] port hh (pc, hp) =
    split_host_port-plain b':' port 0 (last_index_byte-append b':' [] port pc)
      (λ e. absurd (omega arith))
    ∙ split_plain-joined [] port hh (pc, hp)
split_host_port-joined (h ∷ hs) port (hc, (ho, hb)) (pc, hp) =
    let last = last_index_byte-append b':' (h ∷ hs) port pc in
    split_host_port-plain h (hs ++ (b':' ∷ port)) (length (h ∷ hs)) last ho.0
    ∙ split_plain-joined (h ∷ hs) port (hc, (ho, hb)) (pc, hp)

unescape-Lacks : (xs : Bytes) → Lacks b'%' xs → unescape false xs ≡ some xs
unfolding unescape
unescape-Lacks [] _ = refl
unescape-Lacks (a ∷ []) (h, _) = rw (unescape, differs a b'%' h) refl
unescape-Lacks (a ∷ b ∷ []) (h, hs) = simp (unescape, differs a b'%' h, unescape-Lacks (b ∷ []) hs)
unescape-Lacks (a ∷ b ∷ c ∷ xs) (h, hs) =
    rw (unescape, differs a b'%' h, unescape-Lacks (b ∷ c ∷ xs) hs) refl

-- What a replica's source name means.
abbrev pub parsed_dsn : SecondaryDb → DsnConfig
parsed_dsn s = record new_config {
  user = s.user;
  passwd = s.password;
  network = codes "tcp";
  addr = s.host ++ (b':' ∷ itoa s.port);
  db_name = s.db_name;
}

ensure_have_port-joined :
    (host port : Bytes)
    → IsPart host
    → IsPart port
    → ensure_have_port (host ++ (b':' ∷ port)) ≡ host ++ (b':' ∷ port)
unfolding ensure_have_port
ensure_have_port-joined host port hh hp =
    rw (ensure_have_port, split_host_port-joined host port hh hp) refl

bytes_eq-joined : (host port : Bytes) → bytes_eq (host ++ (b':' ∷ port)) [] ≡ false
unfolding bytes_eq
bytes_eq-joined [] port = refl
bytes_eq-joined (h ∷ hs) port = refl

normalize-parsed_dsn :
    (registers : Registers) (s : SecondaryDb)
    → IsPart s.host
    → IsPart (itoa s.port)
    → normalize registers (record (parsed_dsn s) { network = [] }) ≡ ok (parsed_dsn s)
unfolding normalize normalize_address normalize_tls normalize_key
normalize-parsed_dsn registers s hh hp =
    rw (ensure_have_port-joined s.host (itoa s.port) hh hp, bytes_eq-joined s.host (itoa s.port))
      refl

before_slash-printed :
    (user password addr : Bytes) (cfg : DsnConfig)
    → Lacks b':' user
    → Lacks b'@' addr
    → before_slash ((user ++ (b':' ∷ password)) ++ (b'@' ∷ ((b'(' ∷ addr) ++ (b')' ∷ [])))) cfg
      ≡ ok (record cfg { user = user; passwd = password; network = []; addr = addr })
before_slash-printed user password addr cfg hu ha =
    let front = user ++ (b':' ∷ password) in
    let back = b'(' ∷ (addr ++ (b')' ∷ [])) in
    let lacks : Lacks b'@' back =
      All-append (λ b. b ≢ b'@') (b'(' ∷ addr) (b')' ∷ []) ((λ e. absurd (omega arith)), ha)
        ((λ e. absurd (omega arith)), tt) in
    before_slash-at front back cfg lacks
    ∙ ap (network_address back) (credentials-printed user password cfg hu)
    ∙ network_address-printed [] addr (record cfg { user = user; passwd = password }) tt

after_slash-name :
    (registers : Registers) (name : Bytes) (cfg : DsnConfig)
    → Lacks b'?' name
    → Lacks b'%' name
    → after_slash registers name cfg ≡ ok (record cfg { db_name = name })
unfolding after_slash db_name_of
after_slash-name registers name cfg hq hp =
    rw (after_slash, index_byte-Lacks b'?' name hq, db_name_of, unescape-Lacks name hp) refl

mysql_dsn-pieces :
    (s : SecondaryDb)
    → mysql_dsn s
      ≡ ((s.user ++ (b':' ∷ s.password))
          ++ (b'@' ∷ ((b'(' ∷ (s.host ++ (b':' ∷ itoa s.port))) ++ (b')' ∷ []))))
        ++ (b'/' ∷ s.db_name)
unfolding mysql_dsn
mysql_dsn-pieces s = simp (append_assoc)

-- Whatever the password of a replica holds, also a ':', an '@' or a '/': where the user holds no
-- ':', the host none of ':', '@', '[' and ']', and the name of the database none of '/', '?' and
-- '%', `ParseDSN` reads the source name that `initMysqlDB` prints, and its configuration is the
-- default one with this user, password and database, the network "tcp" and the address host:port.
pub parse-mysql_dsn :
    (registers : Registers) (s : SecondaryDb)
    → Lacks b':' s.user
    → Lacks b':' s.host
    → Lacks b'@' s.host
    → Lacks b'[' s.host
    → Lacks b']' s.host
    → Lacks b'/' s.db_name
    → Lacks b'?' s.db_name
    → Lacks b'%' s.db_name
    → parse_dsn registers (mysql_dsn s) ≡ ok (parsed_dsn s)
parse-mysql_dsn registers s user colon at opened closed slash question percent =
    let digits = λ (c : ℕ) (h : ¬ IsDigit c) (m : c ≢ b'-'). itoa-Lacks c h m s.port in
    let port : IsPart (itoa s.port) = (
      digits b':' (λ h. absurd (omega arith)) (λ e. absurd (omega arith)),
      (
        digits b'[' (λ h. absurd (omega arith)) (λ e. absurd (omega arith)),
        digits b']' (λ h. absurd (omega arith)) (λ e. absurd (omega arith)),
      ),
    ) in
    let addr : Lacks b'@' (s.host ++ (b':' ∷ itoa s.port)) =
      joined-Lacks b'@' s.host (itoa s.port) (omega arith) at
        (digits b'@' (λ h. absurd (omega arith)) (λ e. absurd (omega arith))) in
    ap (parse_dsn registers) (mysql_dsn-pieces s)
    ∙ parse_dsn-cut registers _ s.db_name _ _ slash
        (before_slash-printed s.user s.password (s.host ++ (b':' ∷ itoa s.port)) new_config user
          addr)
        (after_slash-name registers s.db_name _ question percent)
    ∙ normalize-parsed_dsn registers s (colon, (opened, closed)) port
