-- ===== src/Handler/Polls/Whole.antt =====
-- watermelon/src/handler/mod.rs: `poll` of `Handler`, over what the clock, the channels, the socket and
-- the scheduler answer in the course of one call.
use watermelon.Prelude.{
  ◌&&◌, not, Bool, true, false, List, [], ◌∷◌, Option, none, some, ℕ, if◌then◌else◌,
}
use watermelon.Crates.{Crates}
use watermelon.Proto.{ServerOp, ClientOp}
use watermelon.Proto
use watermelon.QuickInfo
use watermelon.Connection.{
  StreamingConnection, Poll, pending, failed, ready, poll_flush, enqueue_write_op,
}
use watermelon.Handler.{Channels, HandlerOutput, disconnected, closed, handle_server_op}
use watermelon.Handler.Ping.{ok, too_many_in_flight_pings, reset}
use watermelon.Handler.Ping
use watermelon.Handler.Commands.{failed_unsubscribe, begin_shutdown}
use watermelon.Handler.Polls.{
  Driver, Round, ReceiveOutcome, no_more_commands, no_more_space, stops, breaks, with_handler,
  write_loop,
}

-- What one call of `poll` learns. `reads` is what `poll_read_next` yields before it is pending or
-- fails, and `rounds` what the rounds of the writing loop learn.
pub record Inputs (I : Type 0) : Type 0 where
  pub now : ℕ
  pub channels : Channels
  pub shutdown_requested : Bool
  pub reads : List (ServerOp I)
  pub read_fails : Bool
  pub rounds : List Round
  pub flush : Poll (Unit {0})

module _ {I C : Type 0} (crates : Crates I C) (lame_duck_mode : I → Bool) where
  -- the pinger's turn; the flag says whether it gave up
  unfoldable pub ping : ℕ → Driver I C → Driver I C × Bool
  unfolding Ping.poll enqueue_write_op
  ping now d =
      let (pinger, outcome, pinged) = Ping.poll now d.handler.pinger in
      let d' : Driver I C = record d { handler = record d.handler { pinger = pinger } } in
      elim outcome [
        | too_many_in_flight_pings ↦ (d', true)
        | ok ↦
            if pinged
            then (record d' { conn = enqueue_write_op crates Proto.ClientOp.ping d'.conn }, false)
            else (d', false)
      ]

  -- what is looked at unless the handler is shutting down
  unfoldable pub signals : Inputs I → Driver I C → Driver I C
  unfolding failed_unsubscribe begin_shutdown with_handler QuickInfo.get
  signals i d =
      let cleaned =
        if (QuickInfo.get d.handler.quick_info).is_failed_unsubscribe
        then with_handler crates (failed_unsubscribe i.channels d.handler) d
        else d in
      if d.handler.shutting_down
      then d
      else if i.shutdown_requested
      then record cleaned { handler = begin_shutdown cleaned.handler }
      else cleaned

  -- The reading loop. `none` in the second place goes on.
  unfoldable pub read_loop :
      Channels → List (ServerOp I) → Bool → Driver I C → Driver I C × Option HandlerOutput
  unfolding handle_server_op with_handler
  read_loop channels [] true d = (d, some disconnected)
  read_loop channels [] false d = (d, none)
  read_loop channels (op ∷ ops) read_fails d =
      let (h, output) = handle_server_op lame_duck_mode channels op d.handler in
      let d' = with_handler crates h d in
      let rest = read_loop channels ops read_fails d' in
      elim output [ some output ↦ (d', some output) | none ↦ rest ]

  -- the pinger starts anew if anything was handled
  unfoldable pub note_reads : ℕ → List (ServerOp I) → Driver I C → Driver I C
  unfolding reset
  note_reads now [] d = d
  note_reads now (op ∷ ops) d = record d {
    handler = record d.handler { pinger = reset now d.handler.pinger };
  }

  -- whether the handler is done
  unfoldable pub conclude : ReceiveOutcome → Driver I C → Driver I C × Option HandlerOutput
  conclude no_more_space d = (d, none)
  conclude no_more_commands d =
      if d.handler.shutting_down && (not d.writing && not d.flushing)
      then (d, some closed)
      else (d, none)

  -- the flush, as the socket answered
  unfoldable pub flushed :
      StreamingConnection × Poll (Unit {0})
      → ReceiveOutcome
      → Driver I C
      → Driver I C × Option HandlerOutput
  unfolding conclude
  flushed (conn, pending) outcome d = conclude outcome (record d { conn = conn })
  flushed (conn, failed) outcome d = (record d { conn = conn }, some disconnected)
  flushed (conn, ready u) outcome d = conclude outcome (record d { conn = conn; flushing = false })

  -- behind the writing loop
  unfoldable pub flush_and_conclude :
      Poll (Unit {0}) → ReceiveOutcome → Driver I C → Driver I C × Option HandlerOutput
  unfolding poll_flush conclude flushed
  flush_and_conclude flush outcome d =
      if d.flushing then flushed (poll_flush flush d.conn) outcome d else conclude outcome d

  -- behind the reading loop
  unfoldable pub write_side : Inputs I → Driver I C → Option (Driver I C × Option HandlerOutput)
  unfolding write_loop flush_and_conclude
  write_side i d = elim (write_loop crates i.now i.rounds d) [
    | some (stops d' outcome) ↦ some (flush_and_conclude i.flush outcome d')
    | some (breaks d') ↦ some (d', some disconnected)
    | _ ↦ none
  ]

  -- `poll`: the state and the output, if the handler ends. `none` is a panic of the encoder, or a
  -- writing loop that does not end.
  unfoldable pub poll : Inputs I → Driver I C → Option (Driver I C × Option HandlerOutput)
  unfolding ping signals read_loop note_reads write_side
  poll i d =
      let (pinged, gave_up) = ping i.now d in
      let (read, output) = read_loop i.channels i.reads i.read_fails (signals i pinged) in
      let continued = write_side i (note_reads i.now i.reads read) in
      if gave_up
      then some (pinged, some disconnected)
      else elim output [ some output ↦ some (read, some output) | none ↦ continued ]
