-- ===== src/Handler/Acks.antt =====
-- The commands in flight of watermelon/src/handler/mod.rs: each answer of the server is put to the
-- operation that it answers.
use watermelon.Prelude.{
  ℕ, zero, suc, ◌≤◌, ◌==◌, List, [], ◌∷◌, ◌++◌, Option, none, some, length, drop, ◌≡◌, refl, sym,
  ap, ◌∙◌, arith, Bool-cases, Option-cases, inl, inr, drop-append, length-append, append_assoc,
  append-nil,
}
use watermelon.OrdMap.{Entries, get}
use watermelon.Subject.{Subject}
use watermelon.SubscriptionId.{SubscriptionId}
use watermelon.ServerError.{ServerError}
use watermelon.Proto.{ServerMessage, ClientOp}
use watermelon.Proto
use watermelon.Handler.{
  Handler, Subscription, HandlerCommand, InFlightCommand, Channels, Sent, sent, full, closed,
  enqueue, id_cmp, multiplexed_message, count_message, deliver, subscription_message,
  fail_subscription, fail_command, handle_message, multiplexed_subscription_id,
}
use watermelon.Handler
use watermelon.Headers.Map.{HeaderMap}
use watermelon.Prelude.{Bytes}
use watermelon.Handler.Commands.{
  resubscribe, resubscribe_all, CloseReason, failed_subscribe, dropped, handle_command,
  request_multiplexed, with_multiplexed, init_multiplexed_subscriptions, unsubscribe_multiplexed,
  unsubscribe_after, unsubscribe_now, close_subscription, close_subscriptions, closed_subscriptions,
  failed_unsubscribe,
}

module _ {C : Type 0} where
  -- The command that waits for the answer to an operation: the server answers each publication,
  -- subscription and unsubscription with `+OK` or `-ERR`.
  abbrev pub awaited : ClientOp C → List InFlightCommand
  awaited (Proto.ClientOp.publish m) = Handler.InFlightCommand.unimportant ∷ []
  awaited (Proto.ClientOp.subscribe id subject queue_group) =
      Handler.InFlightCommand.subscribe id ∷ []
  awaited (Proto.ClientOp.unsubscribe id max_messages) = Handler.InFlightCommand.unimportant ∷ []
  awaited _ = []

  abbrev pub all_awaited : List (ClientOp C) → List InFlightCommand
  all_awaited [] = []
  all_awaited (op ∷ ops) = awaited op ++ all_awaited ops

  all_awaited-append :
      (xs ys : List (ClientOp C)) → all_awaited (xs ++ ys) ≡ all_awaited xs ++ all_awaited ys
  all_awaited-append [] ys = refl
  all_awaited-append (x ∷ xs) ys = simp (all_awaited-append xs ys, append_assoc)

pub drop_next :
    {A : Type 0} (n : ℕ) (xs : List A) (x : A) (rest : List A)
    → x ∷ rest ≡ drop n xs
    → (rest ≡ drop (suc n) xs) × (suc n ≤ length xs)
drop_next zero [] x rest h = absurd (cc)
drop_next zero (y ∷ xs) x rest h = (cc, omega arith)
drop_next (suc n) [] x rest h = absurd (cc)
drop_next (suc n) (y ∷ xs) x rest h = let (e, le) = drop_next n xs x rest h in (e, omega arith)

module _ {I C : Type 0} where
  -- After `n` answers, the commands in flight are those of the operations that are not answered, in
  -- the order in which they were enqueued.
  abbrev pub IsAccounted : ℕ → Handler I C → Type 0
  IsAccounted n h =
      (h.in_flight_commands ≡ drop n (all_awaited h.written)) × (n ≤ length (all_awaited h.written))

  pub enqueue-IsAccounted :
      (n : ℕ) (command : InFlightCommand) (op : ClientOp C) (h : Handler I C)
      → awaited op ≡ command ∷ []
      → IsAccounted n h
      → IsAccounted n (enqueue command op h)
  enqueue-IsAccounted n command op h e (flight, le) =
      let more : all_awaited (h.written ++ op ∷ []) ≡ all_awaited h.written ++ (command ∷ []) =
        all_awaited-append h.written (op ∷ []) ∙ ap (λ t. all_awaited h.written ++ (t ++ [])) e in
      (
        ap (λ t. t ++ (command ∷ [])) flight
            ∙ sym (drop-append n (all_awaited h.written) (command ∷ []) le)
            ∙ ap (drop n) (sym more),
        omega (arith, ap length more, length-append (all_awaited h.written) (command ∷ [])),
      )

  -- an operation without an answer
  pub unanswered-IsAccounted :
      (n : ℕ) (h : Handler I C) (op : ClientOp C)
      → awaited op ≡ []
      → IsAccounted n h
      → IsAccounted n (record h { written = h.written ++ (op ∷ []) })
  unanswered-IsAccounted n h op e (flight, le) =
      let kept : all_awaited (h.written ++ op ∷ []) ≡ all_awaited h.written =
        all_awaited-append h.written (op ∷ [])
        ∙ ap (λ t. all_awaited h.written ++ (t ++ [])) e
        ∙ append-nil (all_awaited h.written) in
      (flight ∙ ap (drop n) (sym kept), rw kept le)

  count_message-IsAccounted :
      (n : ℕ) (id : SubscriptionId) (s : Subscription) (h : Handler I C)
      → IsAccounted n h
      → IsAccounted n (count_message id s h)
  unfolding count_message
  count_message-IsAccounted n id s h a = ground arith

  deliver-IsAccounted :
      (n : ℕ) (r : Sent) (id : SubscriptionId) (s : Subscription) (m : ServerMessage)
      (h : Handler I C)
      → IsAccounted n h
      → IsAccounted n (deliver r id s m h)
  unfolding deliver
  deliver-IsAccounted n sent id s m h a = count_message-IsAccounted n id s _ a
  deliver-IsAccounted n full id s m h a = count_message-IsAccounted n id s h a
  deliver-IsAccounted n closed id s m h a = enqueue-IsAccounted n _ _ h refl a

  multiplexed_message-IsAccounted :
      (n : ℕ) (m : ServerMessage) (h : Handler I C)
      → IsAccounted n h
      → IsAccounted n (multiplexed_message m h)
  unfolding multiplexed_message
  multiplexed_message-IsAccounted n m h a = ground arith

  subscription_message-IsAccounted :
      (n : ℕ) (channels : Channels) (m : ServerMessage) (h : Handler I C)
      → IsAccounted n h
      → IsAccounted n (subscription_message channels m h)
  unfolding subscription_message
  subscription_message-IsAccounted n channels m h a =
      elim (Option-cases (get id_cmp m.subscription_id h.subscriptions)) [
        | inl e ↦ rw (e, IsAccounted, subscription_message) a
        | inr (s, e) ↦
            rw (e, IsAccounted, subscription_message)
              (deliver-IsAccounted n (channels.try_send s.messages) m.subscription_id s m h a)
      ]

  pub handle_message-IsAccounted :
      (n : ℕ) (channels : Channels) (m : ServerMessage) (h : Handler I C)
      → IsAccounted n h
      → IsAccounted n (handle_message channels m h)
  unfolding handle_message
  handle_message-IsAccounted n channels m h a =
      elim (Bool-cases (m.subscription_id.id == multiplexed_subscription_id.id)) [
        | inl e ↦ rw (e, IsAccounted, handle_message) (multiplexed_message-IsAccounted n m h a)
        | inr e ↦
            rw (e, IsAccounted, handle_message) (subscription_message-IsAccounted n channels m h a)
      ]

  pub fail_command-IsAccounted :
      (n : ℕ) (channels : Channels) (command : InFlightCommand) (error : ServerError)
      (h : Handler I C)
      → IsAccounted n h
      → IsAccounted n (fail_command channels command error h)
  unfolding fail_command fail_subscription
  fail_command-IsAccounted n channels Handler.InFlightCommand.unimportant error h a = a
  fail_command-IsAccounted n channels (Handler.InFlightCommand.subscribe id) error h a =
      ground arith

  resubscribe-IsAccounted :
      (n : ℕ) (id : SubscriptionId) (s : Subscription) (h : Handler I C)
      → IsAccounted n h
      → IsAccounted n (resubscribe id s h)
  unfolding resubscribe
  resubscribe-IsAccounted n id s h a = elim (Option-cases s.remaining) [
    | inl e ↦ rw (e, IsAccounted, resubscribe) (enqueue-IsAccounted n _ _ h refl a)
    | inr (r, e) ↦
        let op = Proto.ClientOp.subscribe id s.subject s.queue_group in
        let first = enqueue (Handler.InFlightCommand.subscribe id) op h in
        rw (e, IsAccounted, resubscribe)
          (enqueue-IsAccounted n Handler.InFlightCommand.unimportant
            (Proto.ClientOp.unsubscribe id (some r)) first refl
            (enqueue-IsAccounted n (Handler.InFlightCommand.subscribe id) op h refl a))
  ]

  pub resubscribe_all-IsAccounted :
      (n : ℕ) (entries : Entries SubscriptionId Subscription) (h : Handler I C)
      → IsAccounted n h
      → IsAccounted n (resubscribe_all entries h)
  unfolding resubscribe_all
  resubscribe_all-IsAccounted n [] h a = a
  resubscribe_all-IsAccounted n ((id, s) ∷ entries) h a =
      resubscribe_all-IsAccounted n entries (resubscribe id s h)
        (resubscribe-IsAccounted n id s h a)

  pub with_multiplexed-IsAccounted :
      (n : ℕ) (h : Handler I C) → IsAccounted n h → IsAccounted n (with_multiplexed h).0
  unfolding with_multiplexed init_multiplexed_subscriptions
  with_multiplexed-IsAccounted n h a = elim (Option-cases h.multiplexed_subscriptions) [
    | inl e ↦ rw (e, IsAccounted, with_multiplexed) (enqueue-IsAccounted n _ _ h refl a)
    | inr (senders, e) ↦ rw (e, IsAccounted, with_multiplexed) a
  ]

  request_multiplexed-IsAccounted :
      (n : ℕ) (s r : Subject) (m : HeaderMap) (p : Bytes) (reply : ℕ) (h : Handler I C)
      → IsAccounted n h
      → IsAccounted n (request_multiplexed s r m p reply h)
  unfolding request_multiplexed
  request_multiplexed-IsAccounted n s r m p reply h a =
      enqueue-IsAccounted n _ _ (with_multiplexed h).0 refl (with_multiplexed-IsAccounted n h a)

  unsubscribe-IsAccounted :
      (n : ℕ) (id : SubscriptionId) (max_messages : ℕ) (o : Option Subscription) (h : Handler I C)
      → IsAccounted n h
      → IsAccounted n (unsubscribe_after id max_messages o h)
        × IsAccounted n (unsubscribe_now id o h)
  unfolding unsubscribe_after unsubscribe_now
  unsubscribe-IsAccounted n id max_messages none h a = (a, a)
  unsubscribe-IsAccounted n id max_messages (some s) h a =
      (enqueue-IsAccounted n _ _ h refl a, enqueue-IsAccounted n _ _ h refl a)

  pub handle_command-IsAccounted :
      (n : ℕ) (command : HandlerCommand) (h : Handler I C)
      → IsAccounted n h
      → IsAccounted n (handle_command command h)
  unfolding handle_command
  handle_command-IsAccounted n (Handler.HandlerCommand.publish m) h a =
      enqueue-IsAccounted n _ _ h refl a
  handle_command-IsAccounted n (Handler.HandlerCommand.request_multiplexed s r m p reply) h a =
      request_multiplexed-IsAccounted n s r m p reply h a
  handle_command-IsAccounted n (Handler.HandlerCommand.unsubscribe_multiplexed r) h a =
      unfold unsubscribe_multiplexed in ground arith
  handle_command-IsAccounted n (Handler.HandlerCommand.subscribe id s g messages) h a =
      enqueue-IsAccounted n _ (Proto.ClientOp.subscribe id s g) h refl a
  handle_command-IsAccounted n (Handler.HandlerCommand.unsubscribe id (some max_messages)) h a =
      (unsubscribe-IsAccounted n id max_messages (get id_cmp id h.subscriptions) h a).0
  handle_command-IsAccounted n (Handler.HandlerCommand.unsubscribe id none) h a =
      (unsubscribe-IsAccounted n id 0 (get id_cmp id h.subscriptions) h a).1

  close_subscriptions-IsAccounted :
      (n : ℕ) (entries : List (SubscriptionId × CloseReason)) (h : Handler I C)
      → IsAccounted n h
      → IsAccounted n (close_subscriptions entries h)
  unfolding close_subscriptions close_subscription
  close_subscriptions-IsAccounted n [] h a = a
  close_subscriptions-IsAccounted n ((id, failed_subscribe) ∷ entries) h a =
      close_subscriptions-IsAccounted n entries _ a
  close_subscriptions-IsAccounted n ((id, dropped) ∷ entries) h a =
      close_subscriptions-IsAccounted n entries _ (enqueue-IsAccounted n _ _ h refl a)

  pub failed_unsubscribe-IsAccounted :
      (n : ℕ) (channels : Channels) (h : Handler I C)
      → IsAccounted n h
      → IsAccounted n (failed_unsubscribe channels h)
  unfolding failed_unsubscribe
  failed_unsubscribe-IsAccounted n channels h a =
      close_subscriptions-IsAccounted n (closed_subscriptions channels h.subscriptions) _ a
