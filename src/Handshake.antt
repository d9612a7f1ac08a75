-- ===== src/Handshake.antt =====
-- watermelon-mini/src/proto/connector.rs, and `connect` of watermelon-net/src/connection/mod.rs: the
-- handshake with a server. What the network, the TLS and the websocket libraries return is an argument.
-- A connection is what it is made of, and the operations written are logged with it.
pub mod Composed
pub mod Secure
use mathlib.Core.Option
use watermelon.Prelude.{
  suc, codes, ℕ, ◌&&◌, Bool, true, false, List, [], ◌∷◌, Option, none, some, Bytes, if◌then◌else◌,
  Result, ok, err, ◌>>=◌, map_err,
}
use watermelon.ServerAddr.{
  Protocol, possibly_plain, Transport, tcp, websocket, Host, ServerAddr, present,
}
use watermelon.ServerError.{ServerError}
use watermelon.Proto.{ServerOp}
use watermelon.Proto
use watermelon.Proto.Decoder.{DecoderError}
use watermelon.Authenticator.{AuthenticationMethod, AuthenticationError, Connect, try_from_addr}

-- what `connect` asks of a `ServerAddr`; `names_server` says whether TLS takes the host for a name
pub record Destination : Type 0 where
  pub protocol : Protocol
  pub transport : Transport
  pub names_server : Bool
  pub username : Option Bytes
  pub password : Option Bytes

-- `names` is `rustls_server_name_from_addr`
unfoldable pub destination : {V4 V6 : Type 0} → (Host V4 V6 → Bool) → ServerAddr V4 V6 → Destination
unfolding present
destination names addr = record {
  protocol = addr.protocol;
  transport = addr.transport;
  names_server = names addr.host;
  username = present addr.username;
  password = present addr.password;
}

-- the parts of `ServerInfo` that are looked at
pub record ServerInfo : Type 0 where
  pub tls_required : Bool
  pub nonce : Option Bytes
  pub zstd : Bool

pub record ConnectFlags : Type 0 where
  pub tcp_nodelay : Bool
  pub echo : Bool
  pub zstd_compression_level : Option ℕ

-- `ConnectionSecurity`
pub data Security : Type 0 where
  plain tls : Security

-- `ConnectError` of watermelon-net
pub data HandshakeError (E : Type 0) : Type 0 where
  proto : DecoderError → HandshakeError E
  server_error : ServerError → HandshakeError E
  io : E → HandshakeError E
  unexpected_op : HandshakeError E

-- `ConnectError` of watermelon-mini
pub data ConnectError (E : Type 0) : Type 0 where
  io : E → ConnectError E
  invalid_dns_name unexpected_server_op : ConnectError E
  decoder : DecoderError → ConnectError E
  authentication : AuthenticationError → ConnectError E
  connect : HandshakeError E → ConnectError E

-- what `read_next` returns
pub data ReadNext (E : Type 0) : Type 0 where
  op : ServerOp ServerInfo → ReadNext E
  decoder : DecoderError → ReadNext E
  io : E → ReadNext E

-- what the libraries and the server answer, in the order of the calls
pub record Answers (E : Type 0) : Type 0 where
  pub connects : Result E (Unit {0})
  pub sets_nodelay : Bool → Result E (Unit {0})
  pub starts_tls : Result E (Unit {0})
  pub opens_websocket : Result E (Unit {0})
  pub greeting : ReadNext E
  pub upgrades_tls : Result E (Unit {0})
  pub writes_connect : Result E (Unit {0})
  pub writes_ping : Result E (Unit {0})
  pub replies : List (ReadNext E)

-- `non_standard` of `Connect` says whether compression is asked for
abbrev pub Settings : Type 0
Settings = Connect Bool

pub data Written : Type 0 where
  connect_op : Settings → Written
  ping_op : Written

-- an operation that was handed to be written, and over what
pub record Event : Type 0 where
  pub security : Security
  pub is_compressed : Bool
  pub written : Written

-- what the two sides have settled when `CONNECT` is due: a connection is its security, and whether it
-- is compressed behind `CONNECT`
pub record Agreed : Type 0 where
  pub security : Security
  pub compresses : Bool
  pub settings : Settings
  pub info : ServerInfo

-- the client's language and version
abbrev pub client_lang : Bytes
client_lang = codes "rust-watermelon"

-- The version is the crate's, an argument.
unfoldable pub initial_connect : Bytes → Option Bytes → ConnectFlags → Bool → Settings
initial_connect version name flags zstd = record {
  verbose = true;
  pedantic = false;
  require_tls = false;
  auth_token = none;
  username = none;
  password = none;
  client_name = name;
  client_lang = client_lang;
  client_version = version;
  protocol = 1;
  echo = flags.echo;
  signature = none;
  jwt = none;
  supports_no_responders = true;
  supports_headers = true;
  nkey = none;
  non_standard = zstd;
}

unfoldable pub is_streaming : Transport → Bool
is_streaming tcp = true
is_streaming websocket = false

unfoldable pub is_some : Option ℕ → Bool
is_some none = false
is_some (some level) = true

-- `non_standard.zstd` of the `Connect`
unfoldable pub asks_zstd : Transport → ConnectFlags → ServerInfo → Bool
unfolding is_streaming is_some
asks_zstd transport flags info =
    is_streaming transport && (is_some flags.zstd_compression_level && info.zstd)

-- what `after_connect` does: whether the stream is compressed from here on
unfoldable pub upgrades_zstd : Transport → Bool → Option ℕ → Bool
upgrades_zstd tcp zstd (some level) = zstd
upgrades_zstd tcp zstd none = false
upgrades_zstd websocket zstd level = false

-- the method given, or else that of the address
unfoldable pub choose_method :
    {K : Type 0} → Option (AuthenticationMethod K) → Destination → Option (AuthenticationMethod K)
unfolding try_from_addr
choose_method (some method) addr = some method
choose_method none addr = try_from_addr addr.username addr.password

module _ {E : Type 0} where
  -- the upgrade to TLS, for a host that is a name for it
  unfoldable pub upgrade : Destination → Result E (Unit {0}) → Result (ConnectError E) Security
  upgrade addr upgraded =
      if addr.names_server then map_err io upgraded >>= (λ u. ok tls) else err invalid_dns_name

  -- TCP, and TLS at once where the address says so
  unfoldable pub dial : Destination → Bool → Answers E → Result (ConnectError E) Security
  unfolding upgrade
  dial addr nodelay a = do
    _ ← map_err io a.connects
    _ ← map_err io (a.sets_nodelay nodelay)
    elim addr.protocol [ possibly_plain ↦ ok plain | Protocol.tls ↦ upgrade addr a.starts_tls ]

  unfoldable pub open_transport : Transport → Answers E → Result (ConnectError E) (Unit {0})
  open_transport tcp a = ok tt
  open_transport websocket a = map_err io a.opens_websocket

  unfoldable pub greet : ReadNext E → Result (ConnectError E) ServerInfo
  greet (op (Proto.ServerOp.info info)) = ok info
  greet (op (Proto.ServerOp.message m)) = err unexpected_server_op
  greet (op Proto.ServerOp.success) = err unexpected_server_op
  greet (op (Proto.ServerOp.error e)) = err unexpected_server_op
  greet (op Proto.ServerOp.ping) = err unexpected_server_op
  greet (op Proto.ServerOp.pong) = err unexpected_server_op
  greet (decoder e) = err (decoder e)
  greet (io e) = err (io e)

  -- TLS behind the greeting, over TCP only; where the address is `possibly_plain` there was none before
  unfoldable pub secure_after :
      Destination → Answers E → ServerInfo → Security → Result (ConnectError E) Security
  unfolding upgrade
  secure_after addr a info security = elim addr.transport [
    | websocket ↦ ok security
    | tcp ↦ elim addr.protocol [
      | Protocol.tls ↦ ok security
      | possibly_plain ↦ if info.tls_required then upgrade addr a.upgrades_tls else ok security
    ]
  ]

  -- the loop behind the `PING`, with the number of `PONG`s it has queued, which it does not flush;
  -- `none` if the replies end before it does
  unfoldable pub await_pong : ℕ → List (ReadNext E) → Option (Result (HandshakeError E) ℕ)
  await_pong queued [] = none
  await_pong queued (op Proto.ServerOp.success ∷ replies) = await_pong queued replies
  await_pong queued (op Proto.ServerOp.pong ∷ replies) = some (ok queued)
  await_pong queued (op Proto.ServerOp.ping ∷ replies) = await_pong (suc queued) replies
  await_pong queued (op (Proto.ServerOp.error e) ∷ replies) = some (err (server_error e))
  await_pong queued (op (Proto.ServerOp.info info) ∷ replies) = some (err unexpected_op)
  await_pong queued (op (Proto.ServerOp.message m) ∷ replies) = some (err unexpected_op)
  await_pong queued (decoder e ∷ replies) = some (err (proto e))
  await_pong queued (io e ∷ replies) = some (err (io e))

  -- `connect` of watermelon-net: `CONNECT`, then compression if it is agreed on, then `PING`
  unfoldable pub exchange :
      Security → Bool → Settings → Answers E → List Event × Option (Result (HandshakeError E) ℕ)
  unfolding await_pong
  exchange security compresses settings a =
      let first : Event = record {
        security = security;
        is_compressed = false;
        written = connect_op settings;
      } in
      let second : Event = record {
        security = security;
        is_compressed = compresses;
        written = ping_op;
      } in
      elim a.writes_connect [
        | err e ↦ (first ∷ [], some (err (io e)))
        | ok u ↦ elim a.writes_ping [
          | err e ↦ (first ∷ second ∷ [], some (err (io e)))
          | ok v ↦ (first ∷ second ∷ [], await_pong 0 a.replies)
        ]
      ]
