-- ===== src/Handler.antt =====
-- watermelon/src/handler/mod.rs: the state of `Handler` and how it answers the server's operations and
-- the client's commands. The connection is the list of the operations that were enqueued on it, in
-- order; what becomes of them is `Proto.Encoder`. A channel of tokio is its number: whether it takes a
-- value or is closed is an argument of the call that asks, and what it took is logged.
pub mod Ping
pub mod Delay
pub mod Commands
pub mod Acks
pub mod Runs
pub mod Subscriptions
pub mod Polls
use watermelon.Prelude.{
  ℕ, ◌-◌, ◌==◌, Bool, true, false, List, [], ◌∷◌, ◌++◌, Option, none, some, Bytes, compare,
  Ordering, if◌then◌else◌, Result, ok, err,
}
use watermelon.OrdMap.{Entries, get, insert, remove}
use watermelon.Subject.{Subject}
use watermelon.QueueGroup.{QueueGroup}
use watermelon.SubscriptionId.{SubscriptionId, min_id}
use watermelon.ServerError.{ServerError, is_fatal}
use watermelon.Headers.Map.{HeaderMap}
use watermelon.Proto.{MessageBase, ServerMessage, ServerOp, ClientOp}
use watermelon.Proto
use watermelon.QuickInfo.{RawQuickInfo, store_is_lameduck, store_is_failed_unsubscribe}
use watermelon.QuickInfo
use watermelon.Handler.Ping.{Pinger, handle_pong}

abbrev pub multiplexed_subscription_id : SubscriptionId
multiplexed_subscription_id = min_id

-- `Subscription`: `messages` is the number of its channel.
pub record Subscription : Type 0 where
  pub subject : Subject
  pub queue_group : Option QueueGroup
  pub messages : ℕ
  pub remaining : Option ℕ
  pub failed_subscribe : Bool

pub data HandlerCommand : Type 0 where
  publish : MessageBase → HandlerCommand
  request_multiplexed : Subject → Subject → HeaderMap → Bytes → ℕ → HandlerCommand
  unsubscribe_multiplexed : Subject → HandlerCommand
  subscribe : SubscriptionId → Subject → Option QueueGroup → ℕ → HandlerCommand
  unsubscribe : SubscriptionId → Option ℕ → HandlerCommand

pub data InFlightCommand : Type 0 where
  unimportant : InFlightCommand
  subscribe : SubscriptionId → InFlightCommand

pub data HandlerOutput : Type 0 where
  server_error unexpected_state disconnected closed : HandlerOutput

-- what `try_send` returns
pub data Sent : Type 0 where
  sent full closed : Sent

-- The state of the channels during one call.
pub record Channels : Type 0 where
  pub try_send : ℕ → Sent
  pub is_closed : ℕ → Bool

-- The fields that the operations read or change. `delivered` and `replied` log what the channels took.
pub record Handler (I C : Type 0) : Type 0 where
  pub written : List (ClientOp C)
  pub info : Option I
  pub quick_info : RawQuickInfo
  pub shutting_down : Bool
  pub pinger : Pinger
  pub in_flight_commands : List InFlightCommand
  pub multiplexed_subscription_prefix : Subject
  pub multiplexed_subscriptions : Option (Entries Subject ℕ)
  pub subscriptions : Entries SubscriptionId Subscription
  pub delivered : List (ℕ × Result ServerError ServerMessage)
  pub replied : List (ℕ × ServerMessage)

-- `Ord` of `SubscriptionId`
abbrev pub id_cmp : SubscriptionId → SubscriptionId → Ordering
id_cmp a b = compare a.id b.id

-- `Ord` of `Subject`, which is that of its bytes
unfoldable pub bytes_cmp : Bytes → Bytes → Ordering
bytes_cmp [] [] = Ordering.eq
bytes_cmp [] (b ∷ t) = Ordering.lt
bytes_cmp (a ∷ s) [] = Ordering.gt
bytes_cmp (a ∷ s) (b ∷ t) =
    let rest = bytes_cmp s t in
    elim (compare a b) [
      | Ordering.eq ↦ rest
      | Ordering.lt ↦ Ordering.lt
      | Ordering.gt ↦ Ordering.gt
    ]

unfoldable pub subject_cmp : Subject → Subject → Ordering
unfolding bytes_cmp
subject_cmp a b = bytes_cmp a.text b.text

module _ {I C : Type 0} where
  -- an operation is enqueued, and the command that waits for its answer
  abbrev pub enqueue : InFlightCommand → ClientOp C → Handler I C → Handler I C
  enqueue command op h = record h {
    in_flight_commands = h.in_flight_commands ++ (command ∷ []);
    written = h.written ++ (op ∷ []);
  }

  -- `ServerOp::Message` for the multiplexed subscription
  unfoldable pub multiplexed_message : ServerMessage → Handler I C → Handler I C
  unfolding get remove subject_cmp
  multiplexed_message message h = elim h.multiplexed_subscriptions [
    | none ↦ h
    | some senders ↦ elim (get subject_cmp message.base.subject senders) [
      | none ↦ h
      | some sender ↦ record h {
        multiplexed_subscriptions = some (remove subject_cmp message.base.subject senders);
        replied = h.replied ++ ((sender, message) ∷ []);
      }
    ]
  ]

  -- one message less to come; the subscription ends with the last
  unfoldable pub count_message : SubscriptionId → Subscription → Handler I C → Handler I C
  unfolding insert remove
  count_message id subscription h = elim subscription.remaining [
    | none ↦ h
    | some remaining ↦
        if remaining - 1 == 0
        then record h { subscriptions = remove id_cmp id h.subscriptions }
        else record h {
          subscriptions =
              insert id_cmp id (record subscription { remaining = some (remaining - 1) })
                h.subscriptions;
        }
  ]

  -- what is done as `try_send` returned
  unfoldable pub deliver :
      Sent → SubscriptionId → Subscription → ServerMessage → Handler I C → Handler I C
  unfolding count_message
  deliver sent id subscription m h =
      count_message id subscription
        (record h { delivered = h.delivered ++ ((subscription.messages, ok m) ∷ []) })
  deliver full id subscription m h = count_message id subscription h
  deliver closed id subscription m h = enqueue unimportant (Proto.ClientOp.unsubscribe id none) h

  unfoldable pub subscription_message : Channels → ServerMessage → Handler I C → Handler I C
  unfolding get deliver
  subscription_message channels message h =
      elim (get id_cmp message.subscription_id h.subscriptions) [
        | none ↦ h
        | some subscription ↦
            deliver (channels.try_send subscription.messages) message.subscription_id subscription
              message h
      ]

  -- the error of a subscription that failed, as `try_send` returned
  unfoldable pub fail_subscription :
      Sent → SubscriptionId → Subscription → ServerError → Handler I C → Handler I C
  unfolding insert remove store_is_failed_unsubscribe
  fail_subscription sent id subscription error h = record h {
    subscriptions = remove id_cmp id h.subscriptions;
    delivered = h.delivered ++ ((subscription.messages, err error) ∷ []);
  }
  fail_subscription closed id subscription error h = record h {
    subscriptions = remove id_cmp id h.subscriptions;
  }
  fail_subscription full id subscription error h = record h {
    subscriptions =
        insert id_cmp id (record subscription { failed_subscribe = true })
          (remove id_cmp id h.subscriptions);
    quick_info = store_is_failed_unsubscribe true h.quick_info;
  }

  -- an error that is not fatal, with the command that it answers
  unfoldable pub fail_command : Channels → InFlightCommand → ServerError → Handler I C → Handler I C
  unfolding get fail_subscription
  fail_command channels unimportant error h = h
  fail_command channels (subscribe id) error h = elim (get id_cmp id h.subscriptions) [
    | none ↦ h
    | some subscription ↦
        fail_subscription (channels.try_send subscription.messages) id subscription error h
  ]

  -- The state, and the output where the handler ends.
  unfoldable pub handle_error :
      Channels → ServerError → Handler I C → Handler I C × Option HandlerOutput
  unfolding fail_command is_fatal
  handle_error channels error h = elim (is_fatal error) [
    | some false ↦ elim h.in_flight_commands [
      | [] ↦ (h, some unexpected_state)
      | command ∷ commands ↦
          (fail_command channels command error (record h { in_flight_commands = commands }), none)
    ]
    | _ ↦ (h, some server_error)
  ]

  unfoldable pub handle_success : Handler I C → Handler I C × Option HandlerOutput
  handle_success h = elim h.in_flight_commands [
    | [] ↦ (h, some unexpected_state)
    | command ∷ commands ↦ (record h { in_flight_commands = commands }, none)
  ]

  unfoldable pub handle_message : Channels → ServerMessage → Handler I C → Handler I C
  unfolding multiplexed_message subscription_message
  handle_message channels message h =
      if message.subscription_id.id == multiplexed_subscription_id.id
      then multiplexed_message message h
      else subscription_message channels message h

module _ {I C : Type 0} (lame_duck_mode : I → Bool) where
  unfoldable pub handle_server_op :
      Channels → ServerOp I → Handler I C → Handler I C × Option HandlerOutput
  unfolding handle_message handle_success handle_error handle_pong store_is_lameduck
  handle_server_op channels (Proto.ServerOp.message m) h = (handle_message channels m h, none)
  handle_server_op channels Proto.ServerOp.success h = handle_success h
  handle_server_op channels (Proto.ServerOp.error e) h = handle_error channels e h
  handle_server_op channels Proto.ServerOp.ping h =
      (record h { written = h.written ++ (Proto.ClientOp.pong ∷ []) }, none)
  handle_server_op channels Proto.ServerOp.pong h =
      (record h { pinger = handle_pong h.pinger }, none)
  handle_server_op channels (Proto.ServerOp.info i) h = (
    record h { quick_info = store_is_lameduck (lame_duck_mode i) h.quick_info; info = some i },
    none,
  )
