-- ===== src/Handshake/Secure.antt =====
-- watermelon-mini/src/proto/connector.rs: what is written over a connection without TLS, and what is
-- compressed.
use watermelon.Prelude.{
  Bool, true, false, Bytes, Option, Result, ok, err, ◌≡◌, refl, ap, ◌∙◌, arith, Result-cases, inl,
  inr, All,
}
use watermelon.Proto
use watermelon.ServerAddr.{Protocol, Transport}
use watermelon.Nkeys.{KeyCrates}
use watermelon.Authenticator.{AuthenticationMethod, prepare_for_auth}
use watermelon.Handshake.{
  Destination, ServerInfo, ConnectFlags, ConnectError, Answers, Settings, Event, Agreed, Security,
  ReadNext, dial, open_transport, greet, secure_after, choose_method, initial_connect, asks_zstd,
  upgrades_zstd, op, ping_op, exchange, upgrade, is_some, is_streaming,
}
use watermelon.Handshake.Composed.{authenticate, agree, conclude, connect}

-- what holds of everything that is settled when `CONNECT` is due
abbrev Settled : {E : Type 0} → Destination → Answers E → Agreed → Type 0
Settled addr a agreed =
    (a.greeting ≡ op (Proto.ServerOp.info agreed.info))
    × (agreed.security ≡ Security.plain
        → (addr.protocol ≡ Protocol.possibly_plain)
          × (addr.transport ≡ Transport.tcp → agreed.info.tls_required ≡ false))
    × (agreed.compresses ≡ true
        → (addr.transport ≡ Transport.tcp)
          × (agreed.settings.non_standard ≡ true)
          × (agreed.info.zstd ≡ true))

-- what holds of an operation that is written
abbrev pub Guarded : {E : Type 0} → Destination → Answers E → Event → Type 0
Guarded addr a event =
    (info : ServerInfo) × (a.greeting ≡ op (Proto.ServerOp.info info))
    × (event.security ≡ Security.plain
        → (addr.protocol ≡ Protocol.possibly_plain)
          × (addr.transport ≡ Transport.tcp → info.tls_required ≡ false))
    × (event.is_compressed ≡ true
        → (addr.transport ≡ Transport.tcp) × (event.written ≡ ping_op) × (info.zstd ≡ true))

upgrades_zstd-asked :
    (transport : Transport) (flags : ConnectFlags) (info : ServerInfo) (zstd : Bool)
    → zstd ≡ asks_zstd transport flags info
    → upgrades_zstd transport zstd flags.zstd_compression_level ≡ true
    → (transport ≡ Transport.tcp) × (zstd ≡ true) × (info.zstd ≡ true)
unfolding asks_zstd upgrades_zstd is_some is_streaming
upgrades_zstd-asked transport flags info zstd asked e = ground arith

module _ {E : Type 0} where
  upgrade-ok :
      (addr : Destination) (upgraded : Result E (Unit {0})) (s : Security)
      → upgrade addr upgraded ≡ ok s
      → s ≡ Security.tls
  unfolding upgrade
  upgrade-ok addr (ok u) s e = ground arith
  upgrade-ok addr (err x) s e = ground arith

  dial-plain :
      (addr : Destination) (nodelay : Bool) (a : Answers E)
      → dial addr nodelay a ≡ ok Security.plain
      → addr.protocol ≡ Protocol.possibly_plain
  unfolding dial upgrade
  dial-plain addr nodelay a e = ground arith

  greet-ok :
      (r : ReadNext E) (info : ServerInfo)
      → greet r ≡ ok info
      → r ≡ ReadNext.op (Proto.ServerOp.info info)
  unfolding greet
  greet-ok r info e = ground arith

  secure_after-plain :
      (addr : Destination) (a : Answers E) (info : ServerInfo) (s : Security)
      → secure_after addr a info s ≡ ok Security.plain
      → (s ≡ Security.plain)
        × (addr.transport ≡ Transport.tcp
            → addr.protocol ≡ Protocol.possibly_plain
            → info.tls_required ≡ false)
  unfolding secure_after upgrade
  secure_after-plain addr a info s e = ground arith

  plain_throughout :
      (addr : Destination) (nodelay : Bool) (a : Answers E) (info : ServerInfo) (dialed : Security)
      → dial addr nodelay a ≡ ok dialed
      → secure_after addr a info dialed ≡ ok Security.plain
      → (addr.protocol ≡ Protocol.possibly_plain)
        × (addr.transport ≡ Transport.tcp → info.tls_required ≡ false)
  plain_throughout addr nodelay a info dialed is_dialed secured =
      let (is_plain, unrequired) = secure_after-plain addr a info dialed secured in
      let allowed = dial-plain addr nodelay a (is_dialed ∙ ap ok is_plain) in
      (allowed, (λ over_tcp. unrequired over_tcp allowed))

  module _ {K : Type 0} (crates : KeyCrates K) where
    authenticate-non_standard :
        (method : Option (AuthenticationMethod K)) (info : ServerInfo) (settings settled : Settings)
        → authenticate {E = E} crates method info settings ≡ ok settled
        → settled.non_standard ≡ settings.non_standard
    unfolding authenticate prepare_for_auth
    authenticate-non_standard method info settings settled e = ground arith

    agree-Settled :
        (version : Bytes) (addr : Destination) (name : Option Bytes)
        (auth : Option (AuthenticationMethod K)) (flags : ConnectFlags) (a : Answers E)
        (agreed : Agreed)
        → ok agreed ≡ agree crates version addr name auth flags a
        → Settled addr a agreed
    unfolding agree initial_connect
    agree-Settled version addr name auth flags a agreed chain =
        elim (Result-cases (dial addr flags.tcp_nodelay a)) [
          | inr (e, refused) ↦ ground arith
          | inl (dialed, is_dialed) ↦ elim (Result-cases (open_transport addr.transport a)) [
            | inr (e, refused) ↦ ground arith
            | inl (_, opened) ↦ elim (Result-cases (greet a.greeting)) [
              | inr (e, refused) ↦ ground arith
              | inl (info, greeted) ↦ elim (Result-cases (secure_after addr a info dialed)) [
                | inr (e, refused) ↦ ground arith
                | inl (security, secured) ↦
                    elim (Result-cases (
                      authenticate {E = E} crates (choose_method auth addr) info (
                        initial_connect version name flags
                          (asks_zstd addr.transport flags info)))) [
                            | inr (e, refused) ↦ ground arith
                            | inl (settings, authenticated) ↦
                                let made : Agreed = record {
                                  security = security;
                                  compresses =
                                      upgrades_zstd addr.transport settings.non_standard
                                        flags.zstd_compression_level;
                                  settings = settings;
                                  info = info;
                                } in
                                let same : agreed ≡ made = ground arith in
                                let kept =
                                  authenticate-non_standard (choose_method auth addr) info _
                                    settings authenticated in
                                rw same (
                                  greet-ok a.greeting info greeted,
                                  (λ unprotected.
                                      plain_throughout addr flags.tcp_nodelay a info dialed
                                        is_dialed (secured ∙ ap ok unprotected)),
                                  (λ compressed.
                                      upgrades_zstd-asked addr.transport flags info
                                        settings.non_standard kept compressed),
                                )
                          ]
              ]
            ]
          ]
        ]

    conclude-Guarded :
        (addr : Destination) (a : Answers E) (agreed : Agreed)
        → Settled addr a agreed
        → All (Guarded addr a) (conclude crates a (ok agreed)).0
    unfolding conclude exchange
    conclude-Guarded addr a agreed settled = ground arith

    conclude-All :
        (addr : Destination) (a : Answers E) (r : Result (ConnectError E) Agreed)
        → ((agreed : Agreed) → ok agreed ≡ r → Settled addr a agreed)
        → All (Guarded addr a) (conclude crates a r).0
    unfolding conclude
    conclude-All addr a (err e) settled = tt
    conclude-All addr a (ok agreed) settled = conclude-Guarded addr a agreed (settled agreed refl)

    -- Whatever the network, the libraries and the server answer, an operation is written only behind an
    -- `INFO`. It is written without TLS only where the address does not ask for TLS and, over TCP, the
    -- `INFO` does not either; it is compressed only over TCP, if it is the `PING` and the `INFO` offers
    -- compression.
    pub connect-events :
        (version : Bytes) (addr : Destination) (name : Option Bytes)
        (auth : Option (AuthenticationMethod K)) (flags : ConnectFlags) (a : Answers E)
        → All (Guarded addr a) (connect crates version addr name auth flags a).0
    unfolding connect
    connect-events version addr name auth flags a =
        conclude-All addr a (agree crates version addr name auth flags a)
          (agree-Settled version addr name auth flags a)
