-- ===== src/Handler/Polls/Closed.antt =====
-- watermelon/src/handler/mod.rs: what stands behind `HandlerOutput::Closed`.
use mathlib.Core.Option.{some-injective}
use watermelon.Prelude.{
  ◌≢◌, subst, ℕ, ◌&&◌, not, Bool, true, false, List, [], ◌∷◌, Option, none, some, ◌≡◌, refl, arith,
  ap, ◌∙◌, Bool-cases, inl, inr,
}
use watermelon.Crates.{Crates}
use watermelon.Proto
use watermelon.Proto.{ServerOp}
use watermelon.Proto.Encoder.Stream.Pending.{pending}
use watermelon.Connection.{StreamingConnection, Poll, failed, ready, poll_flush}
use watermelon.Connection
use watermelon.Handler.{
  Handler, handle_error, handle_success, Channels, HandlerOutput, closed, disconnected,
  handle_server_op,
}
use watermelon.ServerError.{ServerError}
use watermelon.Handler.Polls.{
  Driver, ReceiveOutcome, no_more_commands, no_more_space, Outcome, again, stops, breaks,
  write_loop, with_handler,
}
use watermelon.Handler.Polls.Whole.{
  Inputs, poll, ping, signals, read_loop, note_reads, write_side, flush_and_conclude, conclude,
  flushed,
}
use watermelon.Handler.Polls.Drains.{Undelayed, Stopped, write_loop-Stopped}

disconnected-ne-closed : Path (Option HandlerOutput) (some disconnected) (some closed) → ⊥
disconnected-ne-closed h = cc

module _ {I C : Type 0} where
  -- what holds of a driver that is done
  abbrev Drained : Driver I C → Type 0
  Drained d =
      (d.handler.shutting_down ≡ true)
      × (d.writing ≡ false)
      × (d.flushing ≡ false)
      × (pending d.conn.encoder ≡ [])

  abbrev IfClosed : Driver I C × Option HandlerOutput → Type 0
  IfClosed (d, output) = output ≡ some closed → Drained d

  module _ (crates : Crates I C) (lame_duck_mode : I → Bool) where
    conclude-IfClosed :
        (outcome : ReceiveOutcome) (d : Driver I C)
        → (d.writing ≡ false → pending d.conn.encoder ≡ [])
        → IfClosed (conclude crates lame_duck_mode outcome d)
    unfolding conclude
    conclude-IfClosed no_more_space d drained = λ h. cc
    conclude-IfClosed no_more_commands d drained =
        elim (Bool-cases (d.handler.shutting_down && (not d.writing && not d.flushing))) [
          | inl done ↦
              rw done (λ h. (ground arith, ground arith, ground arith, drained (ground arith)))
          | inr more ↦ rw more (λ h. cc)
        ]

    flushed-IfClosed :
        (flush : StreamingConnection × Poll (Unit {0})) (outcome : ReceiveOutcome) (d : Driver I C)
        → (d.writing ≡ false → pending flush.0.encoder ≡ [])
        → IfClosed (flushed crates lame_duck_mode flush outcome d)
    unfolding flushed
    flushed-IfClosed (conn, Connection.Poll.pending) outcome d drained =
        conclude-IfClosed outcome (record d { conn = conn }) drained
    flushed-IfClosed (conn, failed) outcome d drained = λ h. cc
    flushed-IfClosed (conn, ready u) outcome d drained =
        conclude-IfClosed outcome (record d { conn = conn; flushing = false }) drained

    poll_flush_encoder :
        (flush : Poll (Unit {0})) (conn : StreamingConnection)
        → (poll_flush flush conn).0.encoder ≡ conn.encoder
    unfolding poll_flush
    poll_flush_encoder Connection.Poll.pending conn = refl
    poll_flush_encoder failed conn = refl
    poll_flush_encoder (ready u) conn = refl

    flush_and_conclude-IfClosed :
        (flush : Poll (Unit {0})) (outcome : ReceiveOutcome) (d : Driver I C)
        → (d.writing ≡ false → pending d.conn.encoder ≡ [])
        → IfClosed (flush_and_conclude crates lame_duck_mode flush outcome d)
    unfolding flush_and_conclude
    flush_and_conclude-IfClosed flush outcome d drained = elim (Bool-cases d.flushing) [
      | inl f ↦ rw f (
          flushed-IfClosed (poll_flush flush d.conn) outcome (record d { flushing = true })
            (λ w. ap pending (poll_flush_encoder flush d.conn) ∙ drained w))
      | inr f ↦ rw f (conclude-IfClosed outcome (record d { flushing = false }) drained)
    ]

    written-IfClosed :
        (flush : Poll (Unit {0})) (o : Option (Outcome I C)) (d' : Driver I C)
        (output : Option HandlerOutput)
        → Stopped o
        → elim o [
          | some (stops d outcome) ↦ some (flush_and_conclude crates lame_duck_mode flush outcome d)
          | some (breaks d) ↦ some (d, some disconnected)
          | _ ↦ none
        ]
          ≡ some (d', output)
        → IfClosed (d', output)
    written-IfClosed flush none d' output s h = λ c. cc
    written-IfClosed flush (some (again d outcome)) d' output s h = λ c. cc
    written-IfClosed flush (some (stops d outcome)) d' output s h =
        subst IfClosed
          (some-injective (flush_and_conclude crates lame_duck_mode flush outcome d) (d', output) h)
          (flush_and_conclude-IfClosed flush outcome d s)
    written-IfClosed flush (some (breaks d)) d' output s h = λ c. cc

    write_side-IfClosed :
        (i : Inputs I) (d d' : Driver I C) (output : Option HandlerOutput)
        → Undelayed d
        → write_side crates lame_duck_mode i d ≡ some (d', output)
        → IfClosed (d', output)
    unfolding write_side
    write_side-IfClosed i d d' output undelayed h =
        written-IfClosed i.flush (write_loop crates i.now i.rounds d) d' output
          (write_loop-Stopped crates i.now i.rounds d undelayed) h

    success_ne : (h : Handler I C) → (handle_success h).1 ≢ some closed
    unfolding handle_success
    success_ne h = ground arith

    error_ne :
        (channels : Channels) (e : ServerError) (h : Handler I C)
        → (handle_error channels e h).1 ≢ some closed
    unfolding handle_error
    error_ne channels e h = ground arith

    handle_server_op-ne-closed :
        (channels : Channels) (op : ServerOp I) (h : Handler I C)
        → (handle_server_op lame_duck_mode channels op h).1 ≢ some closed
    unfolding handle_server_op
    handle_server_op-ne-closed channels (Proto.ServerOp.message m) h = λ c. cc
    handle_server_op-ne-closed channels Proto.ServerOp.success h = success_ne h
    handle_server_op-ne-closed channels (Proto.ServerOp.error e) h = error_ne channels e h
    handle_server_op-ne-closed channels Proto.ServerOp.ping h = λ c. cc
    handle_server_op-ne-closed channels Proto.ServerOp.pong h = λ c. cc
    handle_server_op-ne-closed channels (Proto.ServerOp.info i) h = λ c. cc

    first_output :
        (P : Driver I C × Option HandlerOutput → Type 0) (output : Option HandlerOutput)
        (d : Driver I C) (rest : Driver I C × Option HandlerOutput)
        → P rest
        → ((o : HandlerOutput) → output ≡ some o → P (d, some o))
        → P (elim output [ some o ↦ (d, some o) | none ↦ rest ])
    first_output P none d rest later now = later
    first_output P (some o) d rest later now = now o refl

    read_loop-ne-closed :
        (channels : Channels) (ops : List (ServerOp I)) (read_fails : Bool) (d : Driver I C)
        → (read_loop crates lame_duck_mode channels ops read_fails d).1 ≢ some closed
    unfolding read_loop
    read_loop-ne-closed channels [] true d = λ h. cc
    read_loop-ne-closed channels [] false d = λ h. cc
    read_loop-ne-closed channels (op ∷ ops) read_fails d =
        let (h, output) = handle_server_op lame_duck_mode channels op d.handler in
        first_output (λ r. r.1 ≢ some closed) output (with_handler crates h d)
          (read_loop crates lame_duck_mode channels ops read_fails (with_handler crates h d))
          (read_loop-ne-closed channels ops read_fails (with_handler crates h d))
          (λ o e c. handle_server_op-ne-closed channels op d.handler (e ∙ c))

    read_loop_delay :
        (channels : Channels) (ops : List (ServerOp I)) (read_fails : Bool) (d : Driver I C)
        → (read_loop crates lame_duck_mode channels ops read_fails d).0.delayed_write
          ≡ d.delayed_write
    unfolding read_loop with_handler
    read_loop_delay channels [] true d = refl
    read_loop_delay channels [] false d = refl
    read_loop_delay channels (op ∷ ops) read_fails d =
        let (h, output) = handle_server_op lame_duck_mode channels op d.handler in
        first_output (λ r. r.0.delayed_write ≡ d.delayed_write) output (with_handler crates h d)
          (read_loop crates lame_duck_mode channels ops read_fails (with_handler crates h d))
          (read_loop_delay channels ops read_fails (with_handler crates h d)) (λ o e. refl)

    note_reads_delay :
        (now : ℕ) (ops : List (ServerOp I)) (d : Driver I C)
        → (note_reads crates lame_duck_mode now ops d).delayed_write ≡ d.delayed_write
    unfolding note_reads
    note_reads_delay now [] d = refl
    note_reads_delay now (op ∷ ops) d = refl

    ping_delay :
        (now : ℕ) (d : Driver I C)
        → (ping crates lame_duck_mode now d).0.delayed_write ≡ d.delayed_write
    unfolding ping
    ping_delay now d = ground arith

    signals_delay :
        (i : Inputs I) (d : Driver I C)
        → (signals crates lame_duck_mode i d).delayed_write ≡ d.delayed_write
    unfolding signals with_handler
    signals_delay i d = ground arith

    ended :
        (read : Driver I C × Option HandlerOutput)
        (continued : Option (Driver I C × Option HandlerOutput)) (d' : Driver I C)
        → read.1 ≢ some closed
        → (continued ≡ some (d', some closed) → Drained d')
        → (elim read.1 [ some o ↦ some (read.0, some o) | none ↦ continued ])
          ≡ some (d', some closed)
        → Drained d'
    ended (d, none) continued d' ne drained h = drained h
    ended (d, some o) continued d' ne drained h =
        absurd (ne (ap (λ r. r.1) (some-injective (d, some o) (d', some closed) h)))

    noted_delay :
        (i : Inputs I) (d : Driver I C)
        → let read =
            read_loop crates lame_duck_mode i.channels i.reads i.read_fails
              (signals crates lame_duck_mode i (ping crates lame_duck_mode i.now d).0) in
          (note_reads crates lame_duck_mode i.now i.reads read.0).delayed_write.inner
          ≡ d.delayed_write.inner
    noted_delay i d =
        let pinged = (ping crates lame_duck_mode i.now d).0 in
        let signalled = signals crates lame_duck_mode i pinged in
        let read = read_loop crates lame_duck_mode i.channels i.reads i.read_fails signalled in
        ap (λ delay. delay.inner)
          (note_reads_delay i.now i.reads read.0
            ∙ read_loop_delay i.channels i.reads i.read_fails signalled
            ∙ signals_delay i pinged
            ∙ ping_delay i.now d)

    disconnected-ne :
        (d d' : Driver I C)
        → Path
            (Option (Driver I C × Option HandlerOutput))
            (some (d', some disconnected))
            (some (d, some closed))
        → ⊥
    disconnected-ne d d' h = absurd (
        disconnected-ne-closed
          (ap (λ r. r.1) (some-injective (d', some disconnected) (d, some closed) h)))

    -- If there is no write delay and `poll` returns `Closed`, then the handler is shutting down, nothing
    -- is being written or flushed, and no byte is left in the encoder.
    pub closed_drained :
        (i : Inputs I) (d d' : Driver I C)
        → Undelayed d
        → poll crates lame_duck_mode i d ≡ some (d', some closed)
        → (d'.handler.shutting_down ≡ true)
          × (d'.writing ≡ false)
          × (d'.flushing ≡ false)
          × (pending d'.conn.encoder ≡ [])
    unfolding poll
    closed_drained i d d' undelayed h =
        let pinged = (ping crates lame_duck_mode i.now d).0 in
        let signalled = signals crates lame_duck_mode i pinged in
        let read = read_loop crates lame_duck_mode i.channels i.reads i.read_fails signalled in
        let noted = note_reads crates lame_duck_mode i.now i.reads read.0 in
        elim (Bool-cases (ping crates lame_duck_mode i.now d).1) [
          | inl gave_up ↦
              absurd (disconnected-ne d' (ping crates lame_duck_mode i.now d).0 (rw gave_up at h))
          | inr goes_on ↦
              ended read (write_side crates lame_duck_mode i noted) d'
                (read_loop-ne-closed i.channels i.reads i.read_fails signalled)
                (λ w.
                  write_side-IfClosed i noted d' (some closed) (noted_delay i d ∙ undelayed) w refl)
                (rw goes_on at h)
        ]
