-- ===== src/ServerAddr/Printed.antt =====
-- watermelon-proto/src/server_addr.rs: what is read back from a printed address.
use watermelon.Prelude.{
  Bool, true, false, [], ◌∷◌, ◌++◌, Option, none, some, Bytes, codes, if◌then◌else◌, ok, ◌≡◌, ◌⊎◌,
  inl, inr, refl, ap, arith,
}
use watermelon.ServerAddr.{
  Protocol, possibly_plain, tls, Transport, tcp, websocket, v4, v6, Host, ip, dns, ServerAddr,
  UrlHost, ipv4, ipv6, domain, UrlCrates, parse_scheme, show_scheme, strip_suffix, unbracketed,
  present, is_default_port, port_or_default, parse_host, from_str, show_host, show_credentials,
  show,
}

-- the parts of a URL: the scheme, the username and the password as they are written, the text of the
-- host, and the port
pub record Parts : Type 0 where
  pub scheme : Bytes
  pub credentials : Option (Bytes × Option Bytes)
  pub host : Bytes
  pub port : Option Bytes

-- the text of a URL without a path
abbrev pub credentials_text : Option (Bytes × Option Bytes) → Bytes
credentials_text none = []
credentials_text (some (username, none)) = username ++ codes "@"
credentials_text (some (username, some password)) =
    username ++ (codes ":" ++ (password ++ codes "@"))

abbrev pub port_text : Option Bytes → Bytes
port_text none = []
port_text (some port) = codes ":" ++ port

abbrev pub url_text : Parts → Bytes
url_text parts =
    parts.scheme
    ++ (codes "://" ++ (credentials_text parts.credentials ++ (parts.host ++ port_text parts.port)))

strip_suffix-bracket : (s : Bytes) → strip_suffix (s ++ codes "]") ≡ some s
unfolding strip_suffix
strip_suffix-bracket [] = refl
strip_suffix-bracket (c ∷ []) = refl
strip_suffix-bracket (c ∷ d ∷ s) = rw (strip_suffix-bracket (d ∷ s)) refl

unbracketed-brackets : (s : Bytes) → unbracketed (codes "[" ++ (s ++ codes "]")) ≡ s
unfolding unbracketed
unbracketed-brackets s = rw (strip_suffix-bracket s) refl

parse_scheme-show_scheme :
    (protocol : Protocol) (transport : Transport)
    → parse_scheme (show_scheme protocol transport) ≡ ok (protocol, transport)
unfolding parse_scheme show_scheme
parse_scheme-show_scheme possibly_plain tcp = refl
parse_scheme-show_scheme tls tcp = refl
parse_scheme-show_scheme possibly_plain websocket = refl
parse_scheme-show_scheme tls websocket = refl

module _ {V4 V6 : Type 0} (crates : UrlCrates V4 V6) where
  -- the documented behaviour that does not depend on the address
  pub record IsUrlLawful : Type 0 where
    pub decode_encode :
        (s : Bytes)
        → crates.is_utf8 s ≡ true
        → crates.percent_decode (crates.percent_encode s) ≡ some s
    pub decode_nil : crates.percent_decode [] ≡ some []
    pub parse_ip_v4 : (a : V4) → crates.parse_ip (crates.show_v4 a) ≡ some (v4 a)
    pub parse_ip_v6 : (a : V6) → crates.parse_ip (crates.show_v6 a) ≡ some (v6 a)
    -- no IPv4 address is printed in brackets
    pub unbracketed_v4 : (a : V4) → unbracketed (crates.show_v4 a) ≡ crates.show_v4 a

  -- What url makes of the text of a host: an address, or the text as it is, where it takes the scheme
  -- for one that it does not know. A name is one that it leaves as it is, and no address.
  abbrev pub ReadAs : Host V4 V6 → UrlHost V4 V6 → Type 0
  ReadAs (ip (v4 a)) h = (h ≡ ipv4 a) ⊎ (h ≡ domain (crates.show_v4 a))
  ReadAs (ip (v6 a)) h = (h ≡ ipv6 a) ⊎ (h ≡ domain (codes "[" ++ (crates.show_v6 a ++ codes "]")))
  ReadAs (dns name) h =
      (h ≡ domain name) × (unbracketed name ≡ name) × (crates.parse_ip name ≡ none)

  abbrev pub written_credentials : Bytes → Bytes → Option (Bytes × Option Bytes)
  written_credentials [] password = none
  written_credentials (c ∷ s) [] = some (crates.percent_encode (c ∷ s), none)
  written_credentials (c ∷ s) (d ∷ t) =
      some (crates.percent_encode (c ∷ s), some (crates.percent_encode (d ∷ t)))

  abbrev pub written_username : Option (Bytes × Option Bytes) → Bytes
  written_username none = []
  written_username (some (username, password)) = username

  abbrev pub written_password : Option (Bytes × Option Bytes) → Option Bytes
  written_password none = none
  written_password (some (username, password)) = password

  -- the parts of the text of an address
  abbrev pub parts_of : ServerAddr V4 V6 → Parts
  parts_of addr = record {
    scheme = show_scheme addr.protocol addr.transport;
    credentials = written_credentials addr.username addr.password;
    host = show_host crates addr.host;
    port = if is_default_port addr then none else some (crates.show_port addr.port);
  }

  -- url splits the text of an address into the parts that it is composed of.
  abbrev pub Splits : ServerAddr V4 V6 → UrlHost V4 V6 → Type 0
  Splits addr h =
      crates.parse (url_text (parts_of addr))
      ≡ some (record {
        scheme = show_scheme addr.protocol addr.transport;
        host = some h;
        port = if is_default_port addr then none else some addr.port;
        username = written_username (written_credentials addr.username addr.password);
        password = written_password (written_credentials addr.username addr.password);
      })

  show_credentials-text :
      (username password : Bytes)
      → show_credentials crates (present username) (present password)
        ≡ credentials_text (written_credentials username password)
  unfolding show_credentials present
  show_credentials-text [] password = refl
  show_credentials-text (c ∷ s) [] = refl
  show_credentials-text (c ∷ s) (d ∷ t) = refl

  port_text-if :
      (is_default : Bool) (port : Bytes)
      → (if is_default then [] else codes ":" ++ port)
        ≡ port_text (if is_default then none else some port)
  port_text-if true port = refl
  port_text-if false port = refl

  decode_username :
      IsUrlLawful
      → (username password : Bytes) → crates.is_utf8 username ≡ true
      → crates.percent_decode (written_username (written_credentials username password))
        ≡ some username
  decode_username laws [] password utf8 = laws.decode_nil
  decode_username laws (c ∷ s) [] utf8 = laws.decode_encode (c ∷ s) utf8
  decode_username laws (c ∷ s) (d ∷ t) utf8 = laws.decode_encode (c ∷ s) utf8

  -- what is read of a password
  abbrev pub kept_password : Bytes → Bytes → Bytes
  kept_password [] password = []
  kept_password (c ∷ s) password = password

  decode_password :
      IsUrlLawful
      → (username password : Bytes) → crates.is_utf8 password ≡ true
      → crates.percent_decode (elim (written_password (written_credentials username password)) [
        | none ↦ []
        | some p ↦ p
      ])
        ≡ some (kept_password username password)
  decode_password laws [] password utf8 = laws.decode_nil
  decode_password laws (c ∷ s) [] utf8 = laws.decode_nil
  decode_password laws (c ∷ s) (d ∷ t) utf8 = laws.decode_encode (d ∷ t) utf8

  show-url_text : (addr : ServerAddr V4 V6) → show crates addr ≡ url_text (parts_of addr)
  unfolding show
  show-url_text addr =
      rw
        (
          show_credentials-text addr.username addr.password,
          port_text-if (is_default_port addr) (crates.show_port addr.port),
        )
        refl

  parse_host-ReadAs :
      IsUrlLawful
      → (host : Host V4 V6) (h : UrlHost V4 V6) → ReadAs host h
      → parse_host crates (some h) ≡ ok host
  unfolding parse_host
  parse_host-ReadAs laws (ip (v4 a)) h (inl e) = rw e refl
  parse_host-ReadAs laws (ip (v4 a)) h (inr e) =
      rw (e, laws.unbracketed_v4 a, laws.parse_ip_v4 a) refl
  parse_host-ReadAs laws (ip (v6 a)) h (inl e) = rw e refl
  parse_host-ReadAs laws (ip (v6 a)) h (inr e) =
      rw (e, unbracketed-brackets (crates.show_v6 a), laws.parse_ip_v6 a) refl
  parse_host-ReadAs laws (dns name) h (e, bare, no_ip) =
      rw (e, bare, no_ip) (ap (λ n. ok (dns n)) bare)

  port_or_default-port :
      (addr : ServerAddr V4 V6)
      → port_or_default
          (if is_default_port addr then none else some addr.port)
          addr.protocol
          addr.transport
        ≡ addr.port
  unfolding is_default_port port_or_default
  port_or_default-port addr = ground arith

  -- Where url splits the text of an address into its parts and gives back its host, what is printed
  -- reads back as the same address, the port included whether or not it is printed, but for one field:
  -- the password of an address without a username is not printed and reads back empty.
  pub from_str-show :
      IsUrlLawful
      → (addr : ServerAddr V4 V6) (h : UrlHost V4 V6) → ReadAs addr.host h
      → Splits addr h
      → crates.is_utf8 addr.username ≡ true
      → crates.is_utf8 addr.password ≡ true
      → from_str crates (show crates addr)
        ≡ ok (record addr { password = kept_password addr.username addr.password })
  unfolding from_str
  from_str-show laws addr h read splits utf8 utf8' =
      rw
        (
          show-url_text addr,
          splits,
          parse_scheme-show_scheme addr.protocol addr.transport,
          parse_host-ReadAs laws addr.host h read,
          decode_username laws addr.username addr.password utf8,
          decode_password laws addr.username addr.password utf8',
          port_or_default-port addr,
        )
        refl
