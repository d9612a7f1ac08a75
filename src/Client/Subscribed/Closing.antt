-- ===== src/Client/Subscribed/Closing.antt =====
-- How often a subscription is closed at the server.
use mathlib.Core.List.{reverse}
use watermelon.Prelude.{
  Option-cases, ap, ℕ, ◌+◌, ◌≤◌, ◌==◌, Bool, true, false, List, [], ◌∷◌, ◌++◌, Option, none, some,
  ◌≡◌, refl, arith, if◌then◌else◌, inl, inr,
}
use watermelon.SubscriptionId.{SubscriptionId}
use watermelon.Handler.{
  HandlerCommand, Sent, publish, request_multiplexed, unsubscribe_multiplexed, subscribe,
  unsubscribe,
}
use watermelon.Client.{
  Client, Subscription, SubscriptionStatus, subscribed, unsubscribed, push, enqueue_command, lazily,
  lazy_unsubscribe, try_enqueue_command,
}
use watermelon.Client
use watermelon.Client.Subscribed.{
  Item, Received, close, close_after, closed_as, poll_next, poll_receiver, popped, pop, dropped,
  dropped_as,
}

-- What the holder does, with what the channels answer.
pub data Use : Type 0 where
  closes : Bool → Bool → Use
  closes_after : Bool → Bool → ℕ → Use
  polls : Received → Use

unfoldable pub apply : Use → Subscription → Client → Subscription × Client
unfolding close close_after poll_next
apply (closes is_closed open_channel) s c =
    let (s', c', r) = close is_closed open_channel s c in (s', c')
apply (closes_after is_closed open_channel max) s c =
    let (s', c', r) = close_after is_closed open_channel max s c in (s', c')
apply (polls received) s c = ((poll_next received s).0, c)

-- a life of a subscription, which ends when it is dropped
unfoldable pub live : List Use → Bool → Sent → Subscription → Client → Client
unfolding apply dropped
live [] is_closed outcome s c = dropped is_closed outcome s c
live (x ∷ xs) is_closed outcome s c = let (s', c') = apply x s c in live xs is_closed outcome s' c'

-- whether a command closes the subscription
abbrev closes_id : SubscriptionId → HandlerCommand → ℕ
closes_id id (unsubscribe other none) = if other.id == id.id then 1 else 0
closes_id id _ = 0

abbrev pub closings : SubscriptionId → List HandlerCommand → ℕ
closings id [] = 0
closings id (command ∷ commands) = closes_id id command + closings id commands

closings-append :
    (id : SubscriptionId) (commands : List HandlerCommand) (command : HandlerCommand)
    → closings id (commands ++ command ∷ []) ≡ closings id commands + closes_id id command
closings-append id [] command = omega arith
closings-append id (first ∷ commands) command = omega (arith, closings-append id commands command)

abbrev pub left_of : SubscriptionStatus → ℕ
left_of subscribed = 1
left_of unsubscribed = 0

closes_id-le : (id : SubscriptionId) (command : HandlerCommand) → closes_id id command ≤ 1
closes_id-le id (unsubscribe other none) = ground arith
closes_id-le id (unsubscribe other (some n)) = omega arith
closes_id-le id (publish m) = omega arith
closes_id-le id (request_multiplexed s r h p c) = omega arith
closes_id-le id (unsubscribe_multiplexed r) = omega arith
closes_id-le id (subscribe i s g m) = omega arith

-- closings sent and still to be sent
abbrev budget : Subscription → Client → ℕ
budget s c = closings s.id c.commands + left_of s.status

closed_as-budget :
    (status : SubscriptionStatus) (is_closed open_channel : Bool) (max : Option ℕ)
    (s : Subscription) (c : Client)
    → s.status ≡ status
    → let (s', c', r) = closed_as status is_closed open_channel max s c in
      (budget s' c' ≤ budget s c) × (s'.id ≡ s.id)
unfolding closed_as
closed_as-budget unsubscribed is_closed open_channel max s c e = (omega arith, refl)
closed_as-budget subscribed true open_channel max s c e = (omega arith, refl)
closed_as-budget subscribed false true (some n) s c e =
    unfold Client.unsubscribe enqueue_command push in
    (omega (arith, closings-append s.id c.commands (unsubscribe s.id (some n))), refl)
closed_as-budget subscribed false false (some n) s c e =
    unfold Client.unsubscribe enqueue_command in (omega arith, refl)
closed_as-budget subscribed false true none s c e =
    unfold Client.unsubscribe enqueue_command push in
    (
      rw e (
          omega (
            arith,
            closings-append s.id c.commands (unsubscribe s.id none),
            closes_id-le s.id (unsubscribe s.id none),
          )),
      refl,
    )
closed_as-budget subscribed false false none s c e =
    unfold Client.unsubscribe enqueue_command in (omega arith, refl)

popped_keeps :
    (p : Option (List Item × Item)) (s : Subscription)
    → ((popped p s).0.id ≡ s.id) × ((popped p s).0.status ≡ s.status)
unfolding popped
popped_keeps none s = (refl, refl)
popped_keeps (some (queue, x)) s = (refl, refl)

-- A poll keeps the id, and can only end the subscription.
Polls : Subscription × Client.Poll (Option Item) → Subscription → Type 0
Polls (s', p) s = (s'.id ≡ s.id) × (left_of s'.status ≤ left_of s.status)

poll_receiver-Polls : (received : Received) (s : Subscription) → Polls (poll_receiver received s) s
unfolding poll_receiver Polls
poll_receiver-Polls Client.pending s = (refl, omega arith)
poll_receiver-Polls (Client.ready []) s = (refl, omega arith)
poll_receiver-Polls (Client.ready (x ∷ xs)) s =
    let queued : Subscription = record s { receiver_queue = reverse (x ∷ xs) } in
    let (same_id, same_status) = popped_keeps (pop (reverse (x ∷ xs))) queued in
    (same_id, omega (arith, ap left_of same_status))

poll_next-Polls : (received : Received) (s : Subscription) → Polls (poll_next received s) s
unfolding poll_next Polls
poll_next-Polls received s = elim (Option-cases (pop s.receiver_queue)) [
  | inl empty ↦ rw (empty, poll_next) (poll_receiver-Polls received s)
  | inr (p, found) ↦
      let (same_id, same_status) = popped_keeps (some p) s in
      rw (found, poll_next) (same_id, omega (arith, ap left_of same_status))
]

apply-budget :
    (x : Use) (s : Subscription) (c : Client)
    → let (s', c') = apply x s c in (budget s' c' ≤ budget s c) × (s'.id ≡ s.id)
unfolding apply Polls
apply-budget (closes is_closed open_channel) s c =
    unfold close in closed_as-budget s.status is_closed open_channel none s c refl
apply-budget (closes_after is_closed open_channel max) s c =
    unfold close_after in closed_as-budget s.status is_closed open_channel (some max) s c refl
apply-budget (polls received) s c =
    let (same_id, le) = poll_next-Polls received s in
    (omega (arith, ap (λ id. closings id c.commands) same_id), same_id)

dropped_budget :
    (status : SubscriptionStatus) (is_closed : Bool) (outcome : Sent) (s : Subscription)
    (c : Client)
    → closings s.id (dropped_as status is_closed outcome s c).commands
      ≤ closings s.id c.commands + left_of status
unfolding dropped_as lazy_unsubscribe lazily try_enqueue_command push
dropped_budget unsubscribed is_closed outcome s c = omega arith
dropped_budget subscribed true outcome s c = omega arith
dropped_budget subscribed false Sent.sent s c = omega (
  arith,
  closings-append s.id c.commands (unsubscribe s.id none),
  closes_id-le s.id (unsubscribe s.id none),
)
dropped_budget subscribed false Sent.full s c = omega arith
dropped_budget subscribed false Sent.closed s c = omega arith

-- However a subscription is used, and also when it is dropped, at most one command to close it is
-- sent for it, and none once it is closed.
pub closings-live :
    (uses : List Use) (is_closed : Bool) (outcome : Sent) (s : Subscription) (c : Client)
    → closings s.id (live uses is_closed outcome s c).commands
      ≤ closings s.id c.commands + left_of s.status
unfolding live dropped
closings-live [] is_closed outcome s c = dropped_budget s.status is_closed outcome s c
closings-live (x ∷ uses) is_closed outcome s c =
    let (le, same_id) = apply-budget x s c in
    let (s', c') = apply x s c in
    let later = closings-live uses is_closed outcome s' c' in
    omega (
      arith,
      later,
      le,
      ap (λ id. closings id (live uses is_closed outcome s' c').commands) same_id,
    )
