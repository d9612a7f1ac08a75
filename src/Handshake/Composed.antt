-- ===== src/Handshake/Composed.antt =====
-- watermelon-mini/src/proto/connector.rs: `connect`, composed of its steps.
use mathlib.Core.Option
use watermelon.Prelude.{ℕ, Bytes, List, [], Option, none, some, Result, ok, err, ◌>>=◌, map_err}
use watermelon.Nkeys.{KeyCrates}
use watermelon.Authenticator.{AuthenticationMethod, prepare_for_auth}
use watermelon.Handshake.{
  Destination, ServerInfo, ConnectFlags, ConnectError, authentication, Answers, Settings, Event,
  Agreed, dial, open_transport, greet, secure_after, choose_method, initial_connect, asks_zstd,
  upgrades_zstd, exchange,
}

module _ {E K : Type 0} (crates : KeyCrates K) where
  unfoldable pub authenticate :
      Option (AuthenticationMethod K) → ServerInfo → Settings → Result (ConnectError E) Settings
  unfolding prepare_for_auth
  authenticate none info settings = ok settings
  authenticate (some method) info settings =
      map_err authentication (prepare_for_auth crates method info.nonce settings)

  -- `connect` of watermelon-mini up to `proto_connect`
  unfoldable pub agree :
      Bytes
      → Destination
      → Option Bytes
      → Option (AuthenticationMethod K)
      → ConnectFlags
      → Answers E
      → Result (ConnectError E) Agreed
  unfolding dial open_transport greet secure_after choose_method initial_connect asks_zstd
      upgrades_zstd authenticate
  agree version addr name auth flags a = do
    dialed ← dial addr flags.tcp_nodelay a
    _ ← open_transport addr.transport a
    info ← greet a.greeting
    security ← secure_after addr a info dialed
    settings ←
        authenticate (choose_method auth addr) info
          (initial_connect version name flags (asks_zstd addr.transport flags info))
    ok (record {
      security = security;
      compresses = upgrades_zstd addr.transport settings.non_standard flags.zstd_compression_level;
      settings = settings;
      info = info;
    })

  -- from what is agreed on; the number in the result is that of the `PONG`s left queued
  unfoldable pub conclude :
      Answers E
      → Result (ConnectError E) Agreed
      → List Event × Option (Result (ConnectError E) (Agreed × ℕ))
  unfolding exchange
  conclude a (err e) = ([], some (err e))
  conclude a (ok agreed) =
      let (events, outcome) = exchange agreed.security agreed.compresses agreed.settings a in
      (events, Option.map (λ r. map_err ConnectError.connect r >>= (λ n. ok (agreed, n))) outcome)

  unfoldable pub connect :
      Bytes
      → Destination
      → Option Bytes
      → Option (AuthenticationMethod K)
      → ConnectFlags
      → Answers E
      → List Event × Option (Result (ConnectError E) (Agreed × ℕ))
  unfolding agree conclude
  connect version addr name auth flags a = conclude a (agree version addr name auth flags a)
