-- ===== src/Mysql/Handshake/Runs.antt =====
-- A concrete greeting and the answer to it, and the theorem on the greeting.
use dbrwproxy.Prelude.{◌≡◌, refl, codes, [], ◌∷◌, true, false, replicate, index_byte, bytes_eq}
use dbrwproxy.Mysql.Errors.{ok, err, panic, no_tls}
use dbrwproxy.Mysql.Dsn.Params.{DsnConfig, new_config}
use dbrwproxy.Mysql.Dsn.Cutting.{Lacks-lacks_byte}
use dbrwproxy.Mysql.Handshake.{parse_handshake}
use dbrwproxy.Mysql.Handshake.Greeting.{
  Greeting, IsGreeting, greeting_bytes, parse_handshake-greeting,
}
use dbrwproxy.Mysql.Handshake.Response.{client_flags, plugin_part, chosen_collation}

-- Of a server 8.0: 0xFFFF are all the lower capabilities.
abbrev hello : Greeting
hello = record {
  version = codes "8.0.36";
  id = 9 ∷ 0 ∷ 0 ∷ 0 ∷ [];
  first_cipher = codes "12345678";
  low_flags = 0xFF;
  high_flags = 0xFF;
  middle = replicate 16 0;
  second_cipher = codes "abcdefghijkl";
  plugin = codes "caching_sha2_password";
  tail = [];
}

hello-IsGreeting : IsGreeting hello
unfolding index_byte
hello-IsGreeting = record {
  version_ends = Lacks-lacks_byte 0 hello.version refl;
  id_length = refl;
  first_length = refl;
  middle_length = refl;
  second_length = refl;
  plugin_ends = Lacks-lacks_byte 0 hello.plugin refl;
}

parse_handshake-greeting_example :
    parse_handshake true false (greeting_bytes hello)
    ≡ ok (record {
      auth_data = codes "12345678abcdefghijkl";
      plugin = codes "caching_sha2_password";
      flags = 0xFFFF;
      drops_tls = false;
    })
parse_handshake-greeting_example =
    parse_handshake-greeting true false hello hello-IsGreeting refl refl

-- Without TLS on the side of the server.
tls_refused :
    parse_handshake true false (greeting_bytes (record hello { high_flags = 0xF7 })) ≡ err no_tls
unfolding parse_handshake index_byte
tls_refused = refl

account : DsnConfig
account = record new_config { user = codes "root"; db_name = codes "mydb"; parse_time = true }

flags_run : client_flags account 0xFFFF (20 ∷ []) ≡ 0x1AA28D
unfolding client_flags account bytes_eq
flags_run = refl

collation_run : chosen_collation account ≡ ok 45
unfolding chosen_collation account
collation_run = refl

-- A name of a plugin that is longer than the packet has room for.
plugin_panics : plugin_part (codes "a_plugin_with_a_name_that_is_long") [] ≡ panic
unfolding plugin_part
plugin_panics = refl
