-- ===== src/Handler/Polls.antt =====
-- watermelon/src/handler/mod.rs: `poll` of `Handler` and the loop of `receive_command`, over a
-- connection of the kind `Streaming`. What the clock, the channels, the socket and the scheduler
-- answer are arguments; the list of operations read is what `poll_read_next` yields. The operations
-- that an arm enqueues are those that it puts behind `written`.
pub mod Whole
pub mod Drains
pub mod Closed
pub mod Undrained
use watermelon.Prelude.{
  ℕ, ◌&&◌, Bool, true, false, List, [], ◌∷◌, Option, none, some, length, drop, if◌then◌else◌,
}
use watermelon.Crates.{Crates}
use watermelon.Proto.{ClientOp}
use watermelon.Proto
use watermelon.QuickInfo
use watermelon.Connection.{
  StreamingConnection, Poll, pending, failed, ready, may_write, may_enqueue_more_ops,
  enqueue_write_op, poll_write_next,
}
use watermelon.Handler.{Handler, HandlerCommand}
use watermelon.Handler.Ping
use watermelon.Handler.Delay.{Delayed, poll_can_proceed}
use watermelon.Handler.Commands.{handle_command}

-- `Handler` with its connection and the flags of the writing side
pub record Driver (I C : Type 0) : Type 0 where
  pub handler : Handler I C
  pub conn : StreamingConnection
  pub delayed_write : Delayed
  pub writing : Bool
  pub flushing : Bool

pub data ReceiveOutcome : Type 0 where
  no_more_commands no_more_space : ReceiveOutcome

-- What one round of the writing loop learns: the batches that the channel of commands gives before it
-- is empty, an empty batch if it is closed; whether there is budget before and after the write; and
-- what the socket answers.
pub record Round : Type 0 where
  pub batches : List (List HandlerCommand)
  pub budget_before : Bool
  pub is_write_vectored : Bool
  pub write : Poll ℕ
  pub budget_after : Bool

-- Behind the rounds that are given the channel is empty and the socket busy.
abbrev pub silent : Round
silent = record {
  batches = [];
  budget_before = true;
  is_write_vectored = false;
  write = pending;
  budget_after = true;
}

-- how a round of the writing loop ends
pub data Outcome (I C : Type 0) : Type 0 where
  again stops : Driver I C → ReceiveOutcome → Outcome I C
  breaks : Driver I C → Outcome I C

module _ {I C : Type 0} (crates : Crates I C) where
  unfoldable pub enqueue_all : List (ClientOp C) → StreamingConnection → StreamingConnection
  unfolding enqueue_write_op
  enqueue_all [] conn = conn
  enqueue_all (op ∷ ops) conn = enqueue_all ops (enqueue_write_op crates op conn)

  -- an arm's new state, with what it enqueued put on the connection
  unfoldable pub with_handler : Handler I C → Driver I C → Driver I C
  unfolding enqueue_all
  with_handler h d = record d {
    handler = h;
    conn = enqueue_all (drop (length d.handler.written) h.written) d.conn;
  }

  -- the commands of one batch
  unfoldable pub handle_batch : List HandlerCommand → Driver I C → Driver I C
  unfolding with_handler handle_command
  handle_batch [] d = d
  handle_batch (command ∷ commands) d =
      handle_batch commands (with_handler (handle_command command d.handler) d)

  -- `receive_command`
  unfoldable pub receive_command :
      List (List HandlerCommand) → Driver I C → Driver I C × ReceiveOutcome
  unfolding handle_batch may_enqueue_more_ops
  receive_command [] d =
      if may_enqueue_more_ops d.conn then (d, no_more_commands) else (d, no_more_space)
  receive_command ([] ∷ batches) d =
      if may_enqueue_more_ops d.conn
      then (record d { handler = record d.handler { shutting_down = true } }, no_more_commands)
      else (d, no_more_space)
  receive_command ((command ∷ commands) ∷ batches) d =
      let rest = receive_command batches (handle_batch (command ∷ commands) d) in
      if may_enqueue_more_ops d.conn then rest else (d, no_more_space)

  -- behind `poll_write_next`
  unfoldable pub wrote :
      Bool
      → ReceiveOutcome
      → Driver I C
      → Option (StreamingConnection × Poll ℕ)
      → Option (Outcome I C)
  wrote budget_after outcome d none = none
  wrote true outcome d (some (conn, pending)) =
      some (stops (record d { conn = conn; flushing = false }) outcome)
  wrote false outcome d (some (conn, pending)) = some (stops (record d { conn = conn }) outcome)
  wrote budget_after outcome d (some (conn, ready n)) =
      some (again (record d { conn = conn }) outcome)
  wrote budget_after outcome d (some (conn, failed)) = some (breaks (record d { conn = conn }))

  -- the write, if it is time to write and the scheduler lets it
  unfoldable pub write_once : Round → ReceiveOutcome → Driver I C → Option (Outcome I C)
  unfolding wrote poll_write_next
  write_once r outcome d =
      if d.writing && r.budget_before
      then wrote r.budget_after outcome d (poll_write_next r.is_write_vectored r.write d.conn)
      else some (stops d outcome)

  -- whether writing begins: while it flushes it does not ask the delay
  unfoldable pub begin_writing : ℕ → Driver I C → Driver I C
  unfolding poll_can_proceed
  begin_writing now d =
      let (delayed, proceeds) = poll_can_proceed now d.delayed_write in
      if d.writing
      then d
      else if d.flushing
      then record d { writing = true }
      else record d { delayed_write = delayed; writing = proceeds }

  unfoldable pub after_receive : ℕ → Round → Driver I C × ReceiveOutcome → Option (Outcome I C)
  unfolding begin_writing write_once may_write
  after_receive now r (d, outcome) =
      if may_write d.conn
      then write_once r outcome (begin_writing now d)
      else if d.writing
      then some (stops (record d { writing = false; flushing = true }) outcome)
      else some (stops d outcome)

  -- The soft limit on the buffer starts the writing.
  unfoldable pub note_space : Driver I C × ReceiveOutcome → Driver I C × ReceiveOutcome
  note_space (d, no_more_commands) = (d, no_more_commands)
  note_space (d, no_more_space) = (record d { writing = true }, no_more_space)

  unfoldable pub round : ℕ → Round → Driver I C → Option (Outcome I C)
  unfolding receive_command note_space after_receive
  round now r d = after_receive now r (note_space (receive_command r.batches d))

  -- the writing loop; `none` is a panic of the encoder
  unfoldable pub write_loop : ℕ → List Round → Driver I C → Option (Outcome I C)
  unfolding round
  write_loop now [] d = round now silent d
  write_loop now (r ∷ rounds) d = elim (round now r d) [
    | none ↦ none
    | some (again d' outcome) ↦ write_loop now rounds d'
    | some (stops d' outcome) ↦ some (stops d' outcome)
    | some (breaks d') ↦ some (breaks d')
  ]
