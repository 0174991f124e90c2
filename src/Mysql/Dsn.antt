-- ===== src/Mysql/Dsn.antt =====
-- mysql/dsn.go: the configuration of a connection, and the parsing of a DSN.
-- A *time.Location is its name. What time.ParseDuration and time.LoadLocation give, and the registers of
-- TLS configurations and of server keys, are arguments. The logger is left out.
pub mod Text
pub mod Params
pub mod Cutting
pub mod Format
pub mod Numbers
mod Runs
use dbrwproxy.Prelude.{
  ℕ, zero, suc, ◌+◌, ◌-◌, Bytes, List, [], ◌∷◌, ◌++◌, Bool, true, false, not, ◌&&◌, ◌||◌, Option,
  none, some, ◌==◌, if◌then◌else◌, length, take, drop, index_byte, bytes_eq, codes,
}
use dbrwproxy.Prelude.Int.{ℤ, pos, negsuc}
use dbrwproxy.Mysql.Errors.{message, Result, ok, err, panic, ◌>>=◌}
use dbrwproxy.Mysql.Dsn.Text.{
  last_index_byte, unescape, split_host_port, join_host_port, lacks_byte,
}
use dbrwproxy.Mysql.Dsn.Params.{
  DsnConfig, Tls, new_config, Registers, unsafe_collations, member, parse_dsn_params,
}

-- `ensureHavePort`
unfoldable pub ensure_have_port : Bytes → Bytes
unfolding split_host_port join_host_port
ensure_have_port addr = elim (split_host_port addr) as (λ r. Bytes) [
  | none ↦ join_host_port addr (codes "3306")
  | some parts ↦ addr
]

-- The address of a network without one.
unfoldable pub default_addr : Bytes → Option Bytes
unfolding bytes_eq
default_addr network =
    if bytes_eq network (codes "tcp")
    then some (codes "127.0.0.1:3306")
    else if bytes_eq network (codes "unix")
    then some (codes "/tmp/mysql.sock")
    else none

-- The network and the address.
unfoldable pub normalize_address : DsnConfig → Result DsnConfig
unfolding default_addr ensure_have_port bytes_eq
normalize_address cfg =
    let network = if bytes_eq cfg.network [] then codes "tcp" else cfg.network in
    let missing : Result DsnConfig = elim (default_addr network) as (λ r. Result DsnConfig) [
      | none ↦ err (message (codes "default addr for network '" ++ (network ++ codes "' unknown")))
      | some addr ↦ ok (record cfg { network = network; addr = addr })
    ] in
    if bytes_eq cfg.addr []
    then missing
    else ok (record cfg {
      network = network;
      addr = if bytes_eq network (codes "tcp") then ensure_have_port cfg.addr else cfg.addr;
    })

unfoldable pub normalize_tls : Registers → DsnConfig → Result DsnConfig
unfolding bytes_eq
normalize_tls registers cfg =
    let with = λ (skip fallback : Bool). record cfg {
      tls = some (record { server_name = []; insecure_skip_verify = skip });
      allow_fallback_to_plaintext = fallback || cfg.allow_fallback_to_plaintext;
    } in
    let named : Result DsnConfig =
      elim (registers.tls_configs cfg.tls_config) as (λ r. Result DsnConfig) [
        | none ↦ err (message (codes "invalid value / unknown config name: " ++ cfg.tls_config))
        | some tls ↦ ok (record cfg { tls = some tls })
      ] in
    let chosen =
      if bytes_eq cfg.tls_config (codes "false") || bytes_eq cfg.tls_config []
      then ok cfg
      else if bytes_eq cfg.tls_config (codes "true")
      then ok (with false false)
      else if bytes_eq cfg.tls_config (codes "skip-verify")
      then ok (with true false)
      else if bytes_eq cfg.tls_config (codes "preferred")
      then ok (with true true)
      else named in
    elim cfg.tls as (λ r. Result DsnConfig) [ none ↦ chosen | some tls ↦ ok cfg ]

-- The name that a certificate is checked for.
unfoldable pub server_name_of : Tls → Bytes → Tls
unfolding split_host_port bytes_eq
server_name_of tls addr =
    let named = elim (split_host_port addr) as (λ r. Tls) [
      | none ↦ tls
      | some (host, port) ↦ record tls { server_name = host }
    ] in
    if bytes_eq tls.server_name [] && not tls.insecure_skip_verify then named else tls

abbrev name_server : DsnConfig → Option Tls → DsnConfig
name_server cfg none = cfg
name_server cfg (some tls) = record cfg { tls = some (server_name_of tls cfg.addr) }

unfoldable pub normalize_key : Registers → DsnConfig → Result DsnConfig
unfolding bytes_eq
normalize_key registers cfg =
    let named = elim (registers.server_keys cfg.server_pub_key) as (λ r. Result DsnConfig) [
      | none ↦
          err
            (message (codes "invalid value / unknown server pub key name: " ++ cfg.server_pub_key))
      | some key ↦ ok (record cfg { pub_key = some key })
    ] in
    if bytes_eq cfg.server_pub_key [] then ok cfg else named

-- `normalize`
unfoldable pub normalize : Registers → DsnConfig → Result DsnConfig
unfolding normalize_address normalize_tls server_name_of normalize_key unsafe_collations member
normalize registers cfg =
    let rest = (do
      addressed ← normalize_address cfg
      secured ← normalize_tls registers addressed
      normalize_key registers (name_server secured secured.tls)) in
    if cfg.interpolate_params && member cfg.collation unsafe_collations
    then err
        (message (codes "invalid DSN: interpolateParams can not be used with unsafe collations"))
    else rest

-- username[:password], up to the last '@'
unfoldable pub credentials : Bytes → DsnConfig → DsnConfig
credentials text cfg = elim (index_byte text b':') as (λ r. DsnConfig) [
  | none ↦ record cfg { user = text }
  | some k ↦ record cfg { user = take k text; passwd = drop (suc k) text }
]

-- protocol[(address)]: where there is a '(' the last byte is ')'.
unfoldable pub network_address : Bytes → DsnConfig → Result DsnConfig
network_address text cfg =
    let last = length text - 1 in
    let opened = λ (k : ℕ).
      if bytes_eq (drop last text) (b')' ∷ [])
      then ok (record cfg { network = take k text; addr = drop (suc k) (take last text) })
      else if lacks_byte (drop (suc k) text) b')'
      then err
          (message (codes "invalid DSN: network address not terminated (missing closing brace)"))
      else err (message (codes "invalid DSN: did you forget to escape a param value?")) in
    elim (index_byte text b'(') as (λ r. Result DsnConfig) [
      | none ↦ ok (record cfg { network = text })
      | some k ↦ opened k
    ]

-- What is left of the last '/'.
unfoldable pub before_slash : Bytes → DsnConfig → Result DsnConfig
unfolding credentials network_address last_index_byte
before_slash text cfg = elim (last_index_byte text b'@') as (λ r. Result DsnConfig) [
  | none ↦ network_address text cfg
  | some j ↦ network_address (drop (suc j) text) (credentials (take j text) cfg)
]

unfoldable pub db_name_of : Bytes → DsnConfig → Result DsnConfig
unfolding unescape
db_name_of text cfg = elim (unescape false text) as (λ r. Result DsnConfig) [
  | none ↦ err (message (codes "invalid dbname " ++ text))
  | some name ↦ ok (record cfg { db_name = name })
]

-- dbname[?param1=value1&…], behind the last '/'
unfoldable pub after_slash : Registers → Bytes → DsnConfig → Result DsnConfig
unfolding parse_dsn_params db_name_of
after_slash registers text cfg = elim (index_byte text b'?') as (λ r. Result DsnConfig) [
  | none ↦ db_name_of text cfg
  | some j ↦ parse_dsn_params registers (drop (suc j) text) cfg >>= db_name_of (take j text)
]

-- `ParseDSN`
unfoldable pub parse_dsn : Registers → Bytes → Result DsnConfig
unfolding before_slash after_slash normalize last_index_byte
parse_dsn registers dsn =
    let none_found =
      if bytes_eq dsn []
      then normalize registers new_config
      else err (message (codes "invalid DSN: missing the slash separating the database name")) in
    elim (last_index_byte dsn b'/') as (λ r. Result DsnConfig) [
      | none ↦ none_found
      | some i ↦ before_slash (take i dsn) new_config >>= λ cfg.
          after_slash registers (drop (suc i) dsn) cfg >>= normalize registers
    ]
