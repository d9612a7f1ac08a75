-- ===== src/Client/Requests/Registered.antt =====
-- What the handler makes of the commands of a request with a reply subject.
use watermelon.Prelude.{
  ℕ, ◌+◌, ◌<◌, ◌==◌, ◌%◌, ◌^◌, List, [], ◌∷◌, ◌++◌, none, some, ok, false, ◌≡◌, refl, ◌∙◌, arith,
  append_assoc,
}
use watermelon.Wire.Uint.{max_u64}
use watermelon.OrdMap.{Entries, get, insert}
use watermelon.OrdMap.Laws.{get-insert}
use watermelon.Subject.{Subject}
use watermelon.SubscriptionId.{SubscriptionId}
use watermelon.Proto.{ClientOp}
use watermelon.Proto
use watermelon.Handler.{Handler, HandlerCommand, Sent, id_cmp, publish, subscribe, unsubscribe}
use watermelon.Handler
use watermelon.Handler.Subscriptions.{id_cmp-IsOrder}
use watermelon.Handler.Commands.{handle_command, unsubscribe_after}
use watermelon.Client.{
  Client, try_subscribe, do_subscribe, permitted, push, lazy_unsubscribe, lazily,
  try_enqueue_command, subscribed,
}
use watermelon.Client.Publishes.{into_message_base, try_publish}
use watermelon.Client.Requests.{
  Request, Answers, ResponseFut, subscription, try_request, try_request_subscribed, timeout_of,
}

-- the channel takes every command
abbrev pub all_sent : Answers
all_sent = record {
  subscribes = Sent.sent;
  unsubscribes = Sent.sent;
  publishes = Sent.sent;
  is_closed = false;
  drops = Sent.sent;
}

module _ {I C : Type 0} where
  abbrev pub handle_commands : List HandlerCommand → Handler I C → Handler I C
  handle_commands [] h = h
  handle_commands (command ∷ commands) h = handle_commands commands (handle_command command h)

-- the commands of a request, in order
abbrev pub request_commands : SubscriptionId → ℕ → Subject → Request → List HandlerCommand
request_commands id channel reply r =
    subscribe id reply none channel
    ∷ unsubscribe id (some 1)
    ∷ publish (into_message_base r.publish)
    ∷ []

-- how the handler keeps the subscription of a request: it ends with its first message
abbrev pub one_reply : Subject → ℕ → Handler.Subscription
one_reply reply channel = record {
  subject = reply;
  queue_group = none;
  messages = channel;
  remaining = some 1;
  failed_subscribe = false;
}

get-insert_self :
    (id : SubscriptionId) (s : Handler.Subscription)
    (m : Entries SubscriptionId Handler.Subscription)
    → get id_cmp id (insert id_cmp id s m) ≡ some s
get-insert_self id s m = ground (arith, get-insert id_cmp id_cmp-IsOrder id id s m)

module _ {I C : Type 0} (h : Handler I C) where
  -- the three commands at the handler
  registered :
      (id : SubscriptionId) (channel : ℕ) (reply : Subject) (r : Request)
      → let h' = handle_commands (request_commands id channel reply r) h in
        (get id_cmp id h'.subscriptions ≡ some (one_reply reply channel))
        × (h'.written
            ≡ ((h.written ++ Proto.ClientOp.subscribe id reply none ∷ [])
                ++ Proto.ClientOp.unsubscribe id (some 1) ∷ [])
              ++ Proto.ClientOp.publish (into_message_base r.publish) ∷ [])
  unfolding handle_command unsubscribe_after
  registered id channel reply r =
      let fresh : Handler.Subscription = record (one_reply reply channel) { remaining = none } in
      let once = get-insert_self id fresh h.subscriptions in
      rw once (
        get-insert_self id (one_reply reply channel) (insert id_cmp id fresh h.subscriptions),
        refl,
      )

  -- A request with a reply subject, on a channel that takes its commands, subscribes to that subject
  -- before it publishes: it hands out the next id, and once the handler has carried the commands out,
  -- the subscription stands there under that id and ends with its first message.
  pub try_request-registers :
      (suffix channel : ℕ) (r : Request) (reply : Subject) (c : Client)
      → r.publish.reply_subject ≡ some reply
      → c.next_subscription_id < max_u64
      → let id : SubscriptionId = record { id = c.next_subscription_id } in
        let commands = request_commands id channel reply r in
        let h' = handle_commands commands h in
        (c' : Client) × (fut : ResponseFut) × (try_request all_sent suffix channel r c
          ≡ some (c', ok fut))
        × (c'.commands ≡ c.commands ++ commands)
        × (c'.next_subscription_id ≡ c.next_subscription_id + 1)
        × (get id_cmp id h'.subscriptions ≡ some (one_reply reply channel))
        × (h'.written
            ≡ ((h.written ++ Proto.ClientOp.subscribe id reply none ∷ [])
                ++ Proto.ClientOp.unsubscribe id (some 1) ∷ [])
              ++ Proto.ClientOp.publish (into_message_base r.publish) ∷ [])
  unfolding try_request try_request_subscribed try_subscribe permitted do_subscribe push
      lazy_unsubscribe lazily try_publish try_enqueue_command
  try_request-registers suffix channel r reply c addressed room =
      let id : SubscriptionId = record { id = c.next_subscription_id } in
      let commands = request_commands id channel reply r in
      let (found, written) = registered id channel reply r in
      let c' : Client = record c {
        commands =
            ((c.commands ++ subscribe id reply none channel ∷ []) ++ unsubscribe id (some 1) ∷ [])
            ++ publish (into_message_base r.publish) ∷ [];
        next_subscription_id = c.next_subscription_id + 1;
      } in
      let next : (c.next_subscription_id + 1) % 2 ^ 64 ≡ c.next_subscription_id + 1 = omega arith in
      let more : (c.next_subscription_id == max_u64) ≡ false = ground arith in
      (
        c',
        record {
          subscription =
              subscription
                (record { id = id; receiver = channel; receiver_queue = []; status = subscribed });
          timeout = timeout_of r c';
        },
        ground arith,
        append_assoc (c.commands ++ subscribe id reply none channel ∷ [])
              (unsubscribe id (some 1) ∷ []) (publish (into_message_base r.publish) ∷ [])
            ∙ append_assoc c.commands (subscribe id reply none channel ∷ [])
                (unsubscribe id (some 1) ∷ publish (into_message_base r.publish) ∷ []),
        refl,
        found,
        written,
      )
