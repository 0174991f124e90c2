-- ===== src/Mysql/Dsn/Format/Front.antt =====
-- What `FormatDSN` of mysql/dsn.go writes in front of the '/', read back by `ParseDSN`.
use dbrwproxy.Prelude.{
  ℕ, suc, ◌-◌, ◌≡◌, ◌≢◌, refl, sym, ap, ◌∙◌, Bytes, [], ◌∷◌, ◌++◌, append-nil, append_assoc, some,
  All-append, length, take, drop, length-append, take-append_length, drop-append_length, bytes_eq,
  index_byte, arith, ap₂, if◌then◌else◌,
}
use dbrwproxy.Mysql.Errors.{ok}
use dbrwproxy.Mysql.Dsn.Params.{DsnConfig, Registers, new_config}
use dbrwproxy.Mysql.Dsn.{
  credentials, network_address, before_slash, after_slash, parse_dsn, normalize,
}
use dbrwproxy.Mysql.Dsn.Cutting.{
  Lacks, index_byte-append, index_byte-Lacks, last_index_byte-append, last_index_byte-Lacks,
  drop_past,
}
use dbrwproxy.Mysql.Dsn.Format.{is_set, format_user, format_net}

pub credentials-printed :
    (user password : Bytes) (cfg : DsnConfig)
    → Lacks b':' user
    → credentials (user ++ (b':' ∷ password)) cfg ≡ record cfg { user = user; passwd = password }
unfolding credentials
credentials-printed user password cfg h =
    rw
      (
        credentials,
        index_byte-append b':' user password h,
        take-append_length user (b':' ∷ password),
        drop_past b':' user password,
      )
      refl

credentials-user :
    (user : Bytes) (cfg : DsnConfig)
    → Lacks b':' user
    → credentials user cfg ≡ record cfg { user = user }
unfolding credentials
credentials-user user cfg h = rw (credentials, index_byte-Lacks b':' user h) refl

length-last : (xs : Bytes) (c : ℕ) → length (xs ++ (c ∷ [])) - 1 ≡ length xs
length-last xs c = omega (arith, length-append xs (c ∷ []))

network_address-plain :
    (network : Bytes) (cfg : DsnConfig)
    → Lacks b'(' network
    → network_address network cfg ≡ ok (record cfg { network = network })
unfolding network_address
network_address-plain network cfg h = rw (network_address, index_byte-Lacks b'(' network h) refl

network_address-opened :
    (text : Bytes) (k : ℕ) (cfg : DsnConfig)
    → index_byte text b'(' ≡ some k
    → drop (length text - 1) text ≡ b')' ∷ []
    → network_address text cfg
      ≡ ok (record cfg { network = take k text; addr = drop (suc k) (take (length text - 1) text) })
unfolding network_address bytes_eq
network_address-opened text k cfg e f = rw (network_address, e, f) refl

-- protocol(address)
pub network_address-printed :
    (network addr : Bytes) (cfg : DsnConfig)
    → Lacks b'(' network
    → network_address (network ++ (b'(' ∷ (addr ++ (b')' ∷ [])))) cfg
      ≡ ok (record cfg { network = network; addr = addr })
network_address-printed network addr cfg h =
    let opened = network ++ (b'(' ∷ addr) in
    let text = network ++ (b'(' ∷ (addr ++ (b')' ∷ []))) in
    let grouped : text ≡ opened ++ (b')' ∷ []) =
      sym (append_assoc network (b'(' ∷ addr) (b')' ∷ [])) in
    let last : length text - 1 ≡ length opened =
      ap (λ t. length t - 1) grouped ∙ length-last opened b')' in
    let closing : drop (length text - 1) text ≡ b')' ∷ [] =
      ap₂ drop last grouped ∙ drop-append_length opened (b')' ∷ []) in
    let front : take (length text - 1) text ≡ opened =
      ap₂ take last grouped ∙ take-append_length opened (b')' ∷ []) in
    let inner : drop (suc (length network)) (take (length text - 1) text) ≡ addr =
      ap (drop (suc (length network))) front ∙ drop_past b'(' network addr in
    network_address-opened text (length network) cfg
      (index_byte-append b'(' network (addr ++ (b')' ∷ [])) h) closing
    ∙ ap₂ (λ n a. ok (record cfg { network = n; addr = a }))
        (take-append_length network (b'(' ∷ (addr ++ (b')' ∷ [])))) inner

-- What is written of the network and the address.
format_net-read :
    (network addr : Bytes) (cfg : DsnConfig)
    → Lacks b'(' network
    → (network ≡ [] → addr ≡ [])
    → cfg.addr ≡ []
    → network_address (format_net network addr) cfg
      ≡ ok (record cfg { network = network; addr = addr })
unfolding format_net bytes_eq
format_net-read [] addr cfg h missing e =
    network_address-plain [] cfg tt
    ∙ ap (λ a. ok (record cfg { network = []; addr = a })) (e ∙ sym (missing refl))
format_net-read (n ∷ ns) [] cfg h missing e =
    ap (λ t. network_address t cfg) (append-nil (n ∷ ns))
    ∙ network_address-plain (n ∷ ns) cfg h
    ∙ ap (λ a. ok (record cfg { network = n ∷ ns; addr = a })) e
format_net-read (n ∷ ns) (a ∷ as') cfg h missing e =
    network_address-printed (n ∷ ns) (a ∷ as') cfg h

format_net-Lacks :
    (c : ℕ) (network addr : Bytes)
    → b'(' ≢ c
    → b')' ≢ c
    → Lacks c network
    → Lacks c addr
    → Lacks c (format_net network addr)
unfolding format_net bytes_eq
format_net-Lacks c [] addr ho hc hn ha = tt
format_net-Lacks c (n ∷ ns) [] ho hc hn ha = All-append (λ b. b ≢ c) (n ∷ ns) [] hn tt
format_net-Lacks c (n ∷ ns) (a ∷ as') ho hc hn ha =
    All-append (λ b. b ≢ c) (n ∷ ns) _ hn
      (ho, All-append (λ b. b ≢ c) (a ∷ as') (b')' ∷ []) ha (hc, tt))

before_slash-none :
    (text : Bytes) (cfg : DsnConfig)
    → Lacks b'@' text
    → before_slash text cfg ≡ network_address text cfg
unfolding before_slash
before_slash-none text cfg h = rw (before_slash, last_index_byte-Lacks b'@' text h) refl

pub before_slash-at :
    (front back : Bytes) (cfg : DsnConfig)
    → Lacks b'@' back
    → before_slash (front ++ (b'@' ∷ back)) cfg ≡ network_address back (credentials front cfg)
unfolding before_slash
before_slash-at front back cfg h =
    rw
      (
        before_slash,
        last_index_byte-append b'@' front back h,
        take-append_length front (b'@' ∷ back),
        drop_past b'@' front back,
      )
      refl

credentials-read :
    (user passwd : Bytes) (cfg : DsnConfig)
    → Lacks b':' user
    → cfg.passwd ≡ []
    → credentials (user ++ (if is_set passwd then b':' ∷ passwd else [])) cfg
      ≡ record cfg { user = user; passwd = passwd }
unfolding bytes_eq
credentials-read user [] cfg h e =
    ap (λ t. credentials t cfg) (append-nil user)
    ∙ credentials-user user cfg h
    ∙ ap (λ p. record cfg { user = user; passwd = p }) e
credentials-read user (p ∷ ps) cfg h e = credentials-printed user (p ∷ ps) cfg h

-- Everything in front of the '/'.
pub format_front-read :
    (user passwd network addr : Bytes) (cfg : DsnConfig)
    → Lacks b':' user
    → (user ≡ [] → passwd ≡ [])
    → Lacks b'(' network
    → Lacks b'@' network
    → (network ≡ [] → addr ≡ [])
    → Lacks b'@' addr
    → (cfg.user ≡ []) × ((cfg.passwd ≡ []) × (cfg.addr ≡ []))
    → before_slash (format_user user passwd ++ format_net network addr) cfg
      ≡ ok (record cfg { user = user; passwd = passwd; network = network; addr = addr })
unfolding format_user bytes_eq
format_front-read [] passwd network addr cfg hu nobody hn na missing ha (eu, (ep, ea)) =
    before_slash-none (format_net network addr) cfg (
      format_net-Lacks b'@' network addr (λ e. absurd (omega arith)) (λ e. absurd (omega arith)) na
        ha)
    ∙ format_net-read network addr cfg hn missing ea
    ∙ ap₂ (λ u p. ok (record cfg { user = u; passwd = p; network = network; addr = addr })) eu
        (ep ∙ sym (nobody refl))
format_front-read (u ∷ us) passwd network addr cfg hu nobody hn na missing ha (eu, (ep, ea)) =
    let front = (u ∷ us) ++ (if is_set passwd then b':' ∷ passwd else []) in
    let back = format_net network addr in
    ap (λ t. before_slash t cfg) (append_assoc front (b'@' ∷ []) back)
    ∙ before_slash-at front back cfg (
        format_net-Lacks b'@' network addr (λ e. absurd (omega arith)) (λ e. absurd (omega arith))
          na ha)
    ∙ ap (network_address back) (credentials-read (u ∷ us) passwd cfg hu ep)
    ∙ format_net-read network addr (record cfg { user = u ∷ us; passwd = passwd }) hn missing ea

-- The two sides of the last '/'.
pub parse_dsn-cut :
    (registers : Registers) (front back : Bytes) (cfg cfg' : DsnConfig)
    → Lacks b'/' back
    → before_slash front new_config ≡ ok cfg
    → after_slash registers back cfg ≡ ok cfg'
    → parse_dsn registers (front ++ (b'/' ∷ back)) ≡ normalize registers cfg'
unfolding parse_dsn
parse_dsn-cut registers front back cfg cfg' h e f =
    rw
      (
        parse_dsn,
        last_index_byte-append b'/' front back h,
        take-append_length front (b'/' ∷ back),
        drop_past b'/' front back,
        e,
        f,
      )
      refl
