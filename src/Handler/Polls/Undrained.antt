-- ===== src/Handler/Polls/Undrained.antt =====
-- watermelon/src/handler/mod.rs: `HandlerOutput::Closed` while a write is still delayed.
use watermelon.Prelude.{ℕ, ◌<◌, Bool, true, false, [], some, ◌≡◌, refl, arith}
use watermelon.Crates.{Crates}
use watermelon.Handler.{Channels, closed}
use watermelon.Handler.Ping
use watermelon.Connection.{Poll, may_enqueue_more_ops, may_write}
use watermelon.Handler.Delay.{poll_can_proceed}
use watermelon.Handler.Polls.{
  Driver, write_loop, round, receive_command, note_space, after_receive, begin_writing, write_once,
}
use watermelon.Handler.Polls.Whole.{
  Inputs, poll, ping, signals, read_loop, note_reads, write_side, flush_and_conclude, conclude,
}

module _ {I C : Type 0} (crates : Crates I C) (lame_duck_mode : I → Bool) where
  -- A handler that is shutting down, neither writes nor flushes and has nothing to read or to receive
  -- ends with `Closed` while its write delay runs, with its connection as it was: whatever is in the
  -- encoder is never offered to the socket.
  pub closed_undrained :
      (now : ℕ) (channels : Channels) (shutdown_requested : Bool) (flush : Poll (Unit {0}))
      (d : Driver I C)
      → d.handler.shutting_down ≡ true
      → d.writing ≡ false
      → d.flushing ≡ false
      → now < d.handler.pinger.deadline
      → may_enqueue_more_ops d.conn ≡ true
      → may_write d.conn ≡ true
      → (poll_can_proceed now d.delayed_write).1 ≡ false
      → let i : Inputs I = record {
        now = now;
        channels = channels;
        shutdown_requested = shutdown_requested;
        reads = [];
        read_fails = false;
        rounds = [];
        flush = flush;
      } in
        (d' : Driver I C) × (poll crates lame_duck_mode i d ≡ some (d', some closed))
        × (d'.conn ≡ d.conn)
  unfolding poll ping Ping.poll signals read_loop note_reads write_side write_loop round
      receive_command note_space after_receive begin_writing write_once flush_and_conclude conclude
  closed_undrained now channels shutdown_requested flush d shutting idle unflushed quiet room more
        waits =
      (record d { delayed_write = (poll_can_proceed now d.delayed_write).0 }, ground arith, refl)
