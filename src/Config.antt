-- ===== src/Config.antt =====
-- config/config.go: the configuration file.
use dbrwproxy.Prelude.{List, Option, none, some, Bytes}
use dbrwproxy.Prelude.Int.{ℤ}

pub record SecondaryDb : Type 0 where
  pub name : Bytes
  pub host : Bytes
  pub port : ℤ
  pub user : Bytes
  pub password : Bytes
  pub db_name : Bytes
  pub weight : ℤ
  pub max_idle_conn_count : ℤ
  pub max_open_conns_count : ℤ
  pub conn_max_lifetime : ℤ

pub record MainDb : Type 0 where
  pub addr : Bytes

pub record Db : Type 0 where
  pub main : MainDb
  pub secondaries : List SecondaryDb

pub record ServerConfig : Type 0 where
  pub proxy_addr : Bytes

pub record Proxy : Type 0 where
  pub name : Bytes
  pub server : ServerConfig
  pub db : Db

pub record Config : Type 0 where
  pub postgres_proxies : List Proxy
  pub mysql_proxies : List Proxy

-- Reading a file and the YAML package are parameters; `none` is an error.
module _ (read_file : Bytes → Option Bytes) (unmarshal : Bytes → Option Config) where
  unfoldable pub read_config : Bytes → Option Config
  read_config name = elim (read_file name) [ none ↦ none | some content ↦ unmarshal content ]
