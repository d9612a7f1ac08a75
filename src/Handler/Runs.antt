-- ===== src/Handler/Runs.antt =====
-- Runs of the handler of watermelon/src/handler/mod.rs: what `poll` does, one call after another, in
-- any order, until an output ends the handler.
use watermelon.Prelude.{
  ℕ, ◌+◌, ◌≤◌, Bool, true, false, List, [], ◌∷◌, ◌++◌, Option, none, some, length, drop, ◌≡◌, ◌≢◌,
  ◌⊎◌, subst, refl, sym, ap, ◌∙◌, arith, Bool-cases, Option-cases, inl, inr,
}
use watermelon.ServerError.{ServerError, is_fatal}
use watermelon.Proto.{ServerOp, ClientOp}
use watermelon.Proto
use watermelon.Handler.{
  Handler, HandlerCommand, InFlightCommand, HandlerOutput, Channels, handle_error, handle_success,
  handle_message, handle_server_op, fail_command, server_error, unexpected_state, disconnected,
}
use watermelon.Handler.Ping.{Pinger, PingOutcome, poll, reset}
use watermelon.Handler.Ping
use watermelon.Handler.Commands.{
  RecycledHandler, connect, handle_command, failed_unsubscribe, begin_shutdown,
}
use watermelon.Handler.Acks.{
  all_awaited, IsAccounted, drop_next, unanswered-IsAccounted, handle_message-IsAccounted,
  fail_command-IsAccounted, resubscribe_all-IsAccounted, handle_command-IsAccounted,
  failed_unsubscribe-IsAccounted,
}

-- The calls that `poll` makes, each with what it learns from outside.
pub data Event (I : Type 0) : Type 0 where
  polls_pinger : ℕ → Event I
  closes_unsubscribed : Channels → Event I
  begins_shutdown : Event I
  resets_pinger : ℕ → Event I
  reads : Channels → ServerOp I → Event I
  receives : HandlerCommand → Event I

List-cases : {A : Type 0} (xs : List A) → (xs ≡ []) ⊎ ((x : A) × (rest : List A) × (xs ≡ x ∷ rest))
List-cases [] = inl refl
List-cases (x ∷ xs) = inr (x, xs, refl)

fatal_cases :
    (e : ServerError) → (is_fatal e ≡ some false) ⊎ ((is_fatal e ≡ some true) ⊎ (is_fatal e ≡ none))
fatal_cases e = elim (Option-cases (is_fatal e)) [
  | inl h ↦ inr (inr h)
  | inr (b, h) ↦ elim (Bool-cases b) [
    | inl t ↦ inr (inl (h ∙ ap some t))
    | inr f ↦ inl (h ∙ ap some f)
  ]
]

abbrev error_answers : ServerError → ℕ
error_answers e = elim (is_fatal e) [ some false ↦ 1 | _ ↦ 0 ]

-- whether the operation answers a command in flight
abbrev pub answers : {I : Type 0} → ServerOp I → ℕ
answers Proto.ServerOp.success = 1
answers (Proto.ServerOp.error e) = error_answers e
answers _ = 0

abbrev pub answered_by : {I : Type 0} → Event I → ℕ
answered_by (reads channels op) = answers op
answered_by _ = 0

module _ {I C : Type 0} where
  -- What holds of the state, unless the handler ends.
  abbrev Accounts : ℕ → Handler I C × Option HandlerOutput → Type 0
  Accounts n (h, none) = IsAccounted n h
  Accounts n (h, some output) = Unit

  as_many : {m n : ℕ} (h : Handler I C) → IsAccounted m h → m ≡ n → IsAccounted n h
  as_many h a e = subst (λ k. IsAccounted k h) e a

  answered :
      (n : ℕ) (h : Handler I C) (command : InFlightCommand) (commands : List InFlightCommand)
      → h.in_flight_commands ≡ command ∷ commands
      → IsAccounted n h
      → IsAccounted (n + 1) (record h { in_flight_commands = commands })
  answered n h command commands e (flight, le) =
      as_many (record h { in_flight_commands = commands })
        (drop_next n (all_awaited h.written) command commands (sym e ∙ flight)) (omega arith)

  handle_success-pops :
      (h : Handler I C) (command : InFlightCommand) (commands : List InFlightCommand)
      → h.in_flight_commands ≡ command ∷ commands
      → handle_success h ≡ (record h { in_flight_commands = commands }, none)
  unfolding handle_success
  handle_success-pops h command commands e = rw e refl

  handle_success-ends :
      (h : Handler I C) → h.in_flight_commands ≡ [] → handle_success h ≡ (h, some unexpected_state)
  unfolding handle_success
  handle_success-ends h e = rw e refl

  handle_success-Accounts :
      (n : ℕ) (h : Handler I C) → IsAccounted n h → Accounts (n + 1) (handle_success h)
  handle_success-Accounts n h a = elim (List-cases h.in_flight_commands) [
    | inl e ↦ subst (Accounts (n + 1)) (sym (handle_success-ends h e)) tt
    | inr (command, commands, e) ↦
        subst (Accounts (n + 1)) (sym (handle_success-pops h command commands e))
          (answered n h command commands e a)
  ]

  -- What an error does, by whether it is fatal.
  handle_error-cases :
      (channels : Channels) (error : ServerError) (h : Handler I C)
      → ((command : InFlightCommand) (commands : List InFlightCommand)
          → is_fatal error ≡ some false
          → h.in_flight_commands ≡ command ∷ commands
          → handle_error channels error h ≡ (
            fail_command channels command error (record h { in_flight_commands = commands }),
            none,
          ))
        × (is_fatal error ≡ some false
            → h.in_flight_commands ≡ []
            → handle_error channels error h ≡ (h, some unexpected_state))
        × (is_fatal error ≢ some false → handle_error channels error h ≡ (h, some server_error))
  unfolding handle_error
  handle_error-cases channels error h = (
    λ command commands e f. rw (e, handle_error, f) refl,
    λ e f. ground arith,
    λ ne. elim (fatal_cases error) [
      | inl e ↦ absurd (ne e)
      | inr (inl e) ↦ rw (e, handle_error) refl
      | inr (inr e) ↦ rw (e, handle_error) refl
    ],
  )

  handle_error-Accounts :
      (n : ℕ) (channels : Channels) (error : ServerError) (h : Handler I C)
      → IsAccounted n h
      → Accounts (n + error_answers error) (handle_error channels error h)
  handle_error-Accounts n channels error h a =
      let (pops, empty, fatal) = handle_error-cases channels error h in
      elim (fatal_cases error) [
        | inl e ↦ elim (List-cases h.in_flight_commands) [
          | inl f ↦ subst (Accounts (n + error_answers error)) (sym (empty e f)) tt
          | inr (command, commands, f) ↦
              subst (Accounts (n + error_answers error)) (sym (pops command commands e f)) (
                as_many
                  (fail_command channels command error (record h { in_flight_commands = commands }))
                  (fail_command-IsAccounted (n + 1) channels command error
                    (record h { in_flight_commands = commands })
                    (answered n h command commands f a))
                  (rw (e, error_answers) refl))
        ]
        | inr (inl e) ↦
            subst (Accounts (n + error_answers error)) (sym (fatal (λ q. absurd (cc)))) tt
        | inr (inr e) ↦
            subst (Accounts (n + error_answers error)) (sym (fatal (λ q. absurd (cc)))) tt
      ]

module _ {I C : Type 0} (lame_duck_mode : I → Bool) where
  -- what the first step of `poll` makes of the outcome of the pinger
  unfoldable pub pinged :
      Pinger × PingOutcome × Bool → Handler I C → Handler I C × Option HandlerOutput
  pinged (pinger, Ping.PingOutcome.ok, true) h =
      (record h { pinger = pinger; written = h.written ++ (Proto.ClientOp.ping ∷ []) }, none)
  pinged (pinger, Ping.PingOutcome.ok, false) h = (record h { pinger = pinger }, none)
  pinged (pinger, Ping.PingOutcome.too_many_in_flight_pings, _) h =
      (record h { pinger = pinger }, some disconnected)

  unfoldable pub next : Event I → Handler I C → Handler I C × Option HandlerOutput
  unfolding pinged poll reset failed_unsubscribe begin_shutdown handle_server_op handle_command
  next (polls_pinger now) h = pinged (poll now h.pinger) h
  next (closes_unsubscribed channels) h = (failed_unsubscribe channels h, none)
  next begins_shutdown h = (begin_shutdown h, none)
  next (resets_pinger now) h = (record h { pinger = reset now h.pinger }, none)
  next (reads channels op) h = handle_server_op lame_duck_mode channels op h
  next (receives command) h = (handle_command command h, none)

  -- The states that the handler comes to from `start` without an output, with the number of answers.
  pub data Reaches (start : Handler I C) : ℕ → Handler I C → Type 0 where
    starts : Reaches start 0 start
    goes :
        {n : ℕ} {h h' : Handler I C}
        → Reaches start n h
        → (e : Event I) → next e h ≡ (h', none)
        → Reaches start (n + answered_by e) h'

  handle_server_op-Accounts :
      (n : ℕ) (channels : Channels) (op : ServerOp I) (h : Handler I C)
      → IsAccounted n h
      → Accounts (n + answers op) (handle_server_op lame_duck_mode channels op h)
  unfolding handle_server_op
  handle_server_op-Accounts n channels (Proto.ServerOp.message m) h a =
      as_many (handle_message channels m h) (handle_message-IsAccounted n channels m h a)
        (omega arith)
  handle_server_op-Accounts n channels Proto.ServerOp.success h a = handle_success-Accounts n h a
  handle_server_op-Accounts n channels (Proto.ServerOp.error e) h a =
      handle_error-Accounts n channels e h a
  handle_server_op-Accounts n channels Proto.ServerOp.ping h a =
      as_many (record h { written = h.written ++ (Proto.ClientOp.pong ∷ []) })
        (unanswered-IsAccounted n h Proto.ClientOp.pong refl a) (omega arith)
  handle_server_op-Accounts n channels Proto.ServerOp.pong h a = as_many h a (omega arith)
  handle_server_op-Accounts n channels (Proto.ServerOp.info i) h a = as_many h a (omega arith)

  pinged-Accounts :
      (n : ℕ) (o : Pinger × PingOutcome × Bool) (h : Handler I C)
      → IsAccounted n h
      → Accounts n (pinged o h)
  unfolding pinged
  pinged-Accounts n (pinger, Ping.PingOutcome.ok, true) h a =
      unanswered-IsAccounted n h Proto.ClientOp.ping refl a
  pinged-Accounts n (pinger, Ping.PingOutcome.ok, false) h a = a
  pinged-Accounts n (pinger, Ping.PingOutcome.too_many_in_flight_pings, sends) h a = tt

  next-Accounts :
      (n : ℕ) (e : Event I) (h : Handler I C)
      → IsAccounted n h
      → Accounts (n + answered_by e) (next e h)
  unfolding next
  next-Accounts n (polls_pinger now) h a =
      let same : n ≡ n + 0 = omega arith in
      subst (λ k. Accounts k (next (polls_pinger now) h)) same
        (pinged-Accounts n (poll now h.pinger) h a)
  next-Accounts n (closes_unsubscribed channels) h a =
      as_many (failed_unsubscribe channels h) (failed_unsubscribe-IsAccounted n channels h a)
        (omega arith)
  next-Accounts n begins_shutdown h a = as_many h a (omega arith)
  next-Accounts n (resets_pinger now) h a = as_many h a (omega arith)
  next-Accounts n (reads channels op) h a = handle_server_op-Accounts n channels op h a
  next-Accounts n (receives command) h a =
      as_many (handle_command command h) (handle_command-IsAccounted n command h a) (omega arith)

  Reaches-IsAccounted :
      {start : Handler I C} {n : ℕ} {h : Handler I C}
      → IsAccounted 0 start
      → Reaches start n h
      → IsAccounted n h
  Reaches-IsAccounted a starts = a
  Reaches-IsAccounted a (goes {n = n} {h = h} r e step) =
      subst (Accounts (n + answered_by e)) step (next-Accounts n e h (Reaches-IsAccounted a r))

  -- In whatever order the handler of a new connection is driven, as long as it has not ended: after
  -- `n` answers of the server, the commands in flight are those of the operations from the `n`-th on
  -- that an answer is due to, in the order in which they were enqueued. So each `+OK` and each error
  -- that is not fatal is put to the very operation that it answers, the resubscriptions of `connect`
  -- included.
  pub in_flight_commands_match :
      (now : ℕ) (info : I) (compressed : Bool) (recycled : RecycledHandler I) (n : ℕ)
      (h : Handler I C)
      → Reaches (connect now info compressed recycled) n h
      → (h.in_flight_commands ≡ drop n (all_awaited h.written))
        × (n ≤ length (all_awaited h.written))
  unfolding connect
  in_flight_commands_match now info compressed recycled n h r =
      Reaches-IsAccounted
        (resubscribe_all-IsAccounted 0 recycled.subscriptions _ (refl, omega arith)) r
