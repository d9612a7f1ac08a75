-- ===== src/ServerAddr.antt =====
-- watermelon-proto/src/server_addr.rs: the address of a server, how its text is read and how it is
-- printed. The crates url and percent-encoding, and the addresses of the standard library, are the
-- record UrlCrates of functions over a type `V4` and a type `V6` of addresses.
pub mod Printed
use mathlib.Core.Option
use watermelon.Prelude.{
  ℕ, ◌==◌, Bool, [], ◌∷◌, ◌++◌, Option, none, some, Bytes, codes, is_empty, bytes_eq, if◌then◌else◌,
  Result, ok, err, ◌>>=◌, ok_or,
}

pub data Protocol : Type 0 where
  possibly_plain tls : Protocol

pub data Transport : Type 0 where
  tcp websocket : Transport

pub data IpAddr (V4 V6 : Type 0) : Type 0 where
  v4 : V4 → IpAddr V4 V6
  v6 : V6 → IpAddr V4 V6

pub data Host (V4 V6 : Type 0) : Type 0 where
  ip : IpAddr V4 V6 → Host V4 V6
  dns : Bytes → Host V4 V6

pub record ServerAddr (V4 V6 : Type 0) : Type 0 where
  pub protocol : Protocol
  pub transport : Transport
  pub host : Host V4 V6
  pub port : ℕ
  pub username : Bytes
  pub password : Bytes

pub data ServerAddrError : Type 0 where
  invalid_url invalid_scheme missing_host username_invalid_utf8 password_invalid_utf8 :
      ServerAddrError

-- `url::Host`
pub data UrlHost (V4 V6 : Type 0) : Type 0 where
  ipv4 : V4 → UrlHost V4 V6
  ipv6 : V6 → UrlHost V4 V6
  domain : Bytes → UrlHost V4 V6

-- the parts of a `url::Url` that are asked for
pub record Url (V4 V6 : Type 0) : Type 0 where
  pub scheme : Bytes
  pub host : Option (UrlHost V4 V6)
  pub port : Option ℕ
  pub username : Bytes
  pub password : Option Bytes

pub record UrlCrates (V4 V6 : Type 0) : Type 0 where
  -- `str::parse::<Url>`
  pub parse : Bytes → Option (Url V4 V6)
  -- `percent_encode` at `NON_ALPHANUMERIC`, and `percent_decode_str` with `decode_utf8`
  pub percent_encode : Bytes → Bytes
  pub percent_decode : Bytes → Option Bytes
  -- whether the bytes are the text of a `ByteString`
  pub is_utf8 : Bytes → Bool
  -- `str::parse::<IpAddr>`, and the `Display` of the addresses and of `u16`
  pub parse_ip : Bytes → Option (IpAddr V4 V6)
  pub show_v4 : V4 → Bytes
  pub show_v6 : V6 → Bytes
  pub show_port : ℕ → Bytes

unfoldable pub protocol_transport_to_port : Protocol → Transport → ℕ
protocol_transport_to_port protocol tcp = 4222
protocol_transport_to_port possibly_plain websocket = 80
protocol_transport_to_port tls websocket = 443

-- the `match` on `url.scheme()`
unfoldable pub parse_scheme : Bytes → Result ServerAddrError (Protocol × Transport)
parse_scheme s =
    if bytes_eq s (codes "nats")
    then ok (possibly_plain, tcp)
    else if bytes_eq s (codes "tls")
    then ok (tls, tcp)
    else if bytes_eq s (codes "ws")
    then ok (possibly_plain, websocket)
    else if bytes_eq s (codes "wss")
    then ok (tls, websocket)
    else err invalid_scheme

unfoldable pub show_scheme : Protocol → Transport → Bytes
show_scheme possibly_plain tcp = codes "nats"
show_scheme tls tcp = codes "tls"
show_scheme possibly_plain websocket = codes "ws"
show_scheme tls websocket = codes "wss"

-- `strip_suffix(']')`
unfoldable pub strip_suffix : Bytes → Option Bytes
strip_suffix [] = none
strip_suffix (c ∷ []) = if c == 93 then some [] else none
strip_suffix (c ∷ d ∷ s) = Option.map (λ rest. c ∷ rest) (strip_suffix (d ∷ s))

-- without the brackets around it, if it has both
unfoldable pub unbracketed : Bytes → Bytes
unfolding strip_suffix
unbracketed [] = []
unbracketed (c ∷ s) =
    if c == 91 then elim (strip_suffix s) [ none ↦ c ∷ s | some inner ↦ inner ] else c ∷ s

-- an accessor's view of the username and of the password
unfoldable pub present : Bytes → Option Bytes
present s = if is_empty s then none else some s

unfoldable pub port_or_default : Option ℕ → Protocol → Transport → ℕ
unfolding protocol_transport_to_port
port_or_default (some port) protocol transport = port
port_or_default none protocol transport = protocol_transport_to_port protocol transport

module _ {V4 V6 : Type 0} where
  unfoldable pub is_default_port : ServerAddr V4 V6 → Bool
  unfolding protocol_transport_to_port
  is_default_port addr = addr.port == protocol_transport_to_port addr.protocol addr.transport

  module _ (crates : UrlCrates V4 V6) where
    unfoldable pub parse_host : Option (UrlHost V4 V6) → Result ServerAddrError (Host V4 V6)
    unfolding unbracketed
    parse_host (some (ipv4 a)) = ok (ip (v4 a))
    parse_host (some (ipv6 a)) = ok (ip (v6 a))
    parse_host (some (domain name)) =
        let host = unbracketed name in
        elim (crates.parse_ip host) [ some a ↦ ok (ip a) | none ↦ ok (dns host) ]
    parse_host none = err missing_host

    unfoldable pub from_str : Bytes → Result ServerAddrError (ServerAddr V4 V6)
    unfolding parse_scheme parse_host port_or_default
    from_str value = do
      url ← ok_or (crates.parse value) invalid_url
      kind ← parse_scheme url.scheme
      host ← parse_host url.host
      username ← ok_or (crates.percent_decode url.username) username_invalid_utf8
      password ←
          ok_or (crates.percent_decode (elim url.password [ none ↦ [] | some p ↦ p ]))
            password_invalid_utf8
      ok (record {
        protocol = kind.0;
        transport = kind.1;
        host = host;
        port = port_or_default url.port kind.0 kind.1;
        username = username;
        password = password;
      })

    unfoldable pub show_host : Host V4 V6 → Bytes
    show_host (ip (v4 a)) = crates.show_v4 a
    show_host (ip (v6 a)) = codes "[" ++ (crates.show_v6 a ++ codes "]")
    show_host (dns name) = name

    -- the username and the password, with the `@` behind them
    unfoldable pub show_credentials : Option Bytes → Option Bytes → Bytes
    show_credentials none password = []
    show_credentials (some username) none = crates.percent_encode username ++ codes "@"
    show_credentials (some username) (some password) =
        crates.percent_encode username
        ++ (codes ":" ++ (crates.percent_encode password ++ codes "@"))

    -- `Display`
    unfoldable pub show : ServerAddr V4 V6 → Bytes
    unfolding show_scheme show_credentials present show_host is_default_port
    show addr =
        show_scheme addr.protocol addr.transport
        ++ (codes "://"
            ++ (show_credentials (present addr.username) (present addr.password)
                ++ (show_host addr.host
                    ++ (if is_default_port addr
                        then []
                        else codes ":" ++ crates.show_port addr.port))))
