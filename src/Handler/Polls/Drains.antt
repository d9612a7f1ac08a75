-- ===== src/Handler/Polls/Drains.antt =====
-- watermelon/src/handler/mod.rs: how the writing loop of `poll` ends.

use watermelon.Prelude.{
  ◌||◌, Bytes, is_empty, ℕ, not, Bool, true, false, List, [], ◌∷◌, ◌++◌, Option, none, some, ◌≡◌,
  refl, arith, ap, ◌∙◌, Bool-cases, inl, inr,
}
use watermelon.Crates.{Crates}
use watermelon.BufList
use watermelon.BufList.{all_bytes}
use watermelon.Proto.Encoder.Stream.{StreamEncoder}
use watermelon.Proto.Encoder.Stream
use watermelon.Proto.Encoder.Stream.Pending.{pending}
use watermelon.Connection.{StreamingConnection, Poll, failed, ready, may_write, poll_write_next}
use watermelon.Connection
use watermelon.Handler.{HandlerCommand}
use watermelon.Handler.Commands.{handle_command}
use watermelon.Handler.Delay.{Delayed, poll_can_proceed}
use watermelon.Handler.Polls.{
  Driver, Round, ReceiveOutcome, no_more_commands, no_more_space, Outcome, again, stops, breaks,
  write_loop, round, after_receive, begin_writing, write_once, wrote, with_handler, handle_batch,
  receive_command, note_space, silent,
}

no_chunks :
    (bufs : List Bytes) (s : Bytes)
    → (not (is_empty bufs) || not (is_empty s)) ≡ false
    → all_bytes bufs ++ s ≡ []
unfolding all_bytes
no_chunks [] [] h = refl
no_chunks [] (c ∷ s) h = cc
no_chunks (buf ∷ bufs) s h = cc

-- nothing to write means nothing pending
has_remaining-pending : (e : StreamEncoder) → Stream.has_remaining e ≡ false → pending e ≡ []
unfolding Stream.has_remaining BufList.has_remaining all_bytes
has_remaining-pending e h =
    let record { write_buf = b; flattened_writes = s } = e in no_chunks b.bufs s h

poll_can_proceed-undelayed :
    (now : ℕ) (d : Delayed) → d.inner ≡ none → poll_can_proceed now d ≡ (d, true)
unfolding poll_can_proceed
poll_can_proceed-undelayed now d h = rw h refl

module _ {I C : Type 0} where
  -- no write delay is configured
  abbrev pub Undelayed : Driver I C → Type 0
  Undelayed d = d.delayed_write.inner ≡ none

  -- If a round stops while it is not writing, nothing is pending; if it goes on, there is no delay.
  abbrev pub Stopped : Option (Outcome I C) → Type 0
  Stopped none = Unit
  Stopped (some (again d outcome)) = Undelayed d
  Stopped (some (stops d outcome)) = d.writing ≡ false → pending d.conn.encoder ≡ []
  Stopped (some (breaks d)) = Unit

  module _ (crates : Crates I C) where
    handle_batch_delay :
        (commands : List HandlerCommand) (d : Driver I C)
        → (handle_batch crates commands d).delayed_write ≡ d.delayed_write
    unfolding handle_batch with_handler
    handle_batch_delay [] d = refl
    handle_batch_delay (command ∷ commands) d =
        handle_batch_delay commands (with_handler crates (handle_command command d.handler) d)

    receive_command_delay :
        (batches : List (List HandlerCommand)) (d : Driver I C)
        → (receive_command crates batches d).0.delayed_write ≡ d.delayed_write
    unfolding receive_command
    receive_command_delay [] d = ground arith
    receive_command_delay ([] ∷ batches) d = ground arith
    receive_command_delay ((command ∷ commands) ∷ batches) d =
        let rest = receive_command_delay batches (handle_batch crates (command ∷ commands) d) in
        elim (Bool-cases (Connection.may_enqueue_more_ops d.conn)) [
          | inl room ↦ rw room (rest ∙ handle_batch_delay (command ∷ commands) d)
          | inr full ↦ rw full refl
        ]

    wrote-Stopped :
        (budget : Bool) (outcome : ReceiveOutcome) (d : Driver I C)
        (w : Option (StreamingConnection × Poll ℕ))
        → Undelayed d
        → d.writing ≡ true
        → Stopped (wrote crates budget outcome d w)
    unfolding wrote
    wrote-Stopped budget outcome d none undelayed writing = tt
    wrote-Stopped true outcome d (some (conn, Connection.Poll.pending)) undelayed writing = λ h. cc
    wrote-Stopped false outcome d (some (conn, Connection.Poll.pending)) undelayed writing = λ h. cc
    wrote-Stopped budget outcome d (some (conn, ready n)) undelayed writing = undelayed
    wrote-Stopped budget outcome d (some (conn, failed)) undelayed writing = tt

    begin_writing_delay :
        (now : ℕ) (d : Driver I C) → Undelayed d → Undelayed (begin_writing crates now d)
    unfolding begin_writing
    begin_writing_delay now d undelayed =
        ground (arith, poll_can_proceed-undelayed now d.delayed_write undelayed, undelayed)

    begin_writing_on :
        (now : ℕ) (d : Driver I C) → Undelayed d → (begin_writing crates now d).writing ≡ true
    unfolding begin_writing
    begin_writing_on now d undelayed =
        ground (arith, poll_can_proceed-undelayed now d.delayed_write undelayed)

    write_once-Stopped :
        (r : Round) (outcome : ReceiveOutcome) (d : Driver I C)
        → Undelayed d
        → d.writing ≡ true
        → Stopped (write_once crates r outcome d)
    unfolding write_once
    write_once-Stopped r outcome d undelayed w = elim (Bool-cases r.budget_before) [
      | inl b ↦
          rw (w, b)
            (wrote-Stopped r.budget_after outcome (record d { writing = true })
              (poll_write_next r.is_write_vectored r.write d.conn) undelayed refl)
      | inr b ↦ rw (w, b) (λ h. cc)
    ]

    after_receive-Stopped :
        (now : ℕ) (r : Round) (received : Driver I C × ReceiveOutcome)
        → Undelayed received.0
        → Stopped (after_receive crates now r received)
    unfolding after_receive
    after_receive-Stopped now r (d, outcome) undelayed = elim (Bool-cases (may_write d.conn)) [
      | inl more ↦ rw more (
          write_once-Stopped r outcome (begin_writing crates now d)
            (begin_writing_delay now d undelayed) (begin_writing_on now d undelayed))
      | inr bare ↦ elim (Bool-cases d.writing) [
        | inl w ↦ rw (bare, w) (λ h. has_remaining-pending d.conn.encoder bare)
        | inr w ↦ rw (bare, w) (λ h. has_remaining-pending d.conn.encoder bare)
      ]
    ]

    note_space_delay :
        (received : Driver I C × ReceiveOutcome)
        → (note_space crates received).0.delayed_write ≡ received.0.delayed_write
    unfolding note_space
    note_space_delay (d, no_more_commands) = refl
    note_space_delay (d, no_more_space) = refl

    round-Stopped :
        (now : ℕ) (r : Round) (d : Driver I C) → Undelayed d → Stopped (round crates now r d)
    unfolding round
    round-Stopped now r d undelayed =
        after_receive-Stopped now r (note_space crates (receive_command crates r.batches d)) (
          ap (λ delay. delay.inner)
            (note_space_delay (receive_command crates r.batches d)
              ∙ receive_command_delay r.batches d)
          ∙ undelayed)

    go_on-Stopped :
        (now : ℕ) (rounds : List Round) (o : Option (Outcome I C))
        → ((d : Driver I C) → Undelayed d → Stopped (write_loop crates now rounds d))
        → Stopped o
        → Stopped (elim o [
          | none ↦ none
          | some (again d' outcome) ↦ write_loop crates now rounds d'
          | some (stops d' outcome) ↦ some (stops d' outcome)
          | some (breaks d') ↦ some (breaks d')
        ])
    go_on-Stopped now rounds none next s = tt
    go_on-Stopped now rounds (some (again d outcome)) next s = next d s
    go_on-Stopped now rounds (some (stops d outcome)) next s = s
    go_on-Stopped now rounds (some (breaks d)) next s = tt

    pub write_loop-Stopped :
        (now : ℕ) (rounds : List Round) (d : Driver I C)
        → Undelayed d
        → Stopped (write_loop crates now rounds d)
    unfolding write_loop
    write_loop-Stopped now [] d undelayed = round-Stopped now silent d undelayed
    write_loop-Stopped now (r ∷ rounds) d undelayed =
        go_on-Stopped now rounds (round crates now r d) (write_loop-Stopped now rounds)
          (round-Stopped now r d undelayed)
