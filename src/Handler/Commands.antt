-- ===== src/Handler/Commands.antt =====
-- watermelon/src/handler/mod.rs: `connect`, `recycle`, `failed_unsubscribe`, `begin_shutdown` and the
-- commands of `receive_command`.
use watermelon.Prelude.{
  ℕ, Bool, true, false, List, [], ◌∷◌, ◌++◌, Option, none, some, Bytes, codes, if◌then◌else◌,
}
use watermelon.OrdMap.{Entries, get, insert, remove}
use watermelon.Subject.{Subject, from_dangerous_value}
use watermelon.SubscriptionId.{SubscriptionId}
use watermelon.Headers.Map.{HeaderMap}
use watermelon.Proto.{ClientOp}
use watermelon.Proto
use watermelon.QuickInfo.{RawQuickInfo, store, store_is_connected, store_is_failed_unsubscribe}
use watermelon.Handler.{
  Handler, Subscription, HandlerCommand, InFlightCommand, Channels, enqueue, id_cmp, subject_cmp,
  multiplexed_subscription_id,
}
use watermelon.Handler
use watermelon.Handler.Ping

-- What outlives a connection: `RecycledHandler`.
pub record RecycledHandler (I : Type 0) : Type 0 where
  pub info : Option I
  pub quick_info : RawQuickInfo
  pub multiplexed_subscription_prefix : Subject
  pub subscriptions : Entries SubscriptionId Subscription

-- why a subscription is closed
pub data CloseReason : Type 0 where
  failed_subscribe dropped : CloseReason

unfoldable pub closed_subscriptions :
    Channels → Entries SubscriptionId Subscription → List (SubscriptionId × CloseReason)
closed_subscriptions channels [] = []
closed_subscriptions channels ((id, s) ∷ entries) =
    let rest = closed_subscriptions channels entries in
    if s.failed_subscribe
    then (id, failed_subscribe) ∷ rest
    else if channels.is_closed s.messages
    then (id, dropped) ∷ rest
    else rest

-- `retain`, by whether the sender is closed
retain_open : Channels → Entries Subject ℕ → Entries Subject ℕ
retain_open channels [] = []
retain_open channels ((subject, sender) ∷ entries) =
    let rest = retain_open channels entries in
    if channels.is_closed sender then rest else (subject, sender) ∷ rest

retained : Channels → Option (Entries Subject ℕ) → Option (Entries Subject ℕ)
unfolding retain_open
retained channels none = none
retained channels (some senders) = some (retain_open channels senders)

module _ {I C : Type 0} where
  -- one entry of the loop in `connect`
  unfoldable pub resubscribe : SubscriptionId → Subscription → Handler I C → Handler I C
  resubscribe id s h =
      let subscribed =
        enqueue (Handler.InFlightCommand.subscribe id)
          (Proto.ClientOp.subscribe id s.subject s.queue_group) h in
      elim s.remaining [
        | none ↦ subscribed
        | some remaining ↦
            enqueue Handler.InFlightCommand.unimportant
              (Proto.ClientOp.unsubscribe id (some remaining)) subscribed
      ]

  unfoldable pub resubscribe_all : Entries SubscriptionId Subscription → Handler I C → Handler I C
  unfolding resubscribe
  resubscribe_all [] h = h
  resubscribe_all ((id, s) ∷ entries) h = resubscribe_all entries (resubscribe id s h)

  -- `connect` once the connection stands, with its `ServerInfo` and whether it is compressed
  unfoldable pub connect : ℕ → I → Bool → RecycledHandler I → Handler I C
  unfolding resubscribe_all store Ping.new
  connect now info is_zstd_compressed recycle = resubscribe_all recycle.subscriptions (record {
    written = [];
    info = some info;
    quick_info =
        store
          (λ q. record q {
            is_connected = true;
            is_zstd_compressed = is_zstd_compressed;
            is_lameduck = false;
          })
          recycle.quick_info;
    shutting_down = false;
    pinger = Ping.new now;
    in_flight_commands = [];
    multiplexed_subscription_prefix = recycle.multiplexed_subscription_prefix;
    multiplexed_subscriptions = none;
    subscriptions = recycle.subscriptions;
    delivered = [];
    replied = [];
  })

  -- what `recycle` keeps
  unfoldable pub recycle : Handler I C → RecycledHandler I
  unfolding store_is_connected
  recycle h = record {
    info = h.info;
    quick_info = store_is_connected false h.quick_info;
    multiplexed_subscription_prefix = h.multiplexed_subscription_prefix;
    subscriptions = h.subscriptions;
  }

  -- `init_multiplexed_subscriptions`
  unfoldable pub init_multiplexed_subscriptions : Handler I C → Handler I C
  init_multiplexed_subscriptions h =
      enqueue (Handler.InFlightCommand.subscribe multiplexed_subscription_id)
        (Proto.ClientOp.subscribe multiplexed_subscription_id
          (from_dangerous_value (h.multiplexed_subscription_prefix.text ++ codes ".*")) none)
        (record h { multiplexed_subscriptions = some [] })

  -- the map of the multiplexed replies, which is made at the first request
  unfoldable pub with_multiplexed : Handler I C → Handler I C × Entries Subject ℕ
  unfolding init_multiplexed_subscriptions
  with_multiplexed h = elim h.multiplexed_subscriptions [
    | none ↦ (init_multiplexed_subscriptions h, [])
    | some senders ↦ (h, senders)
  ]

  unfoldable pub request_multiplexed :
      Subject → Subject → HeaderMap → Bytes → ℕ → Handler I C → Handler I C
  unfolding with_multiplexed insert subject_cmp
  request_multiplexed subject reply_subject headers payload reply h =
      let (h', senders) = with_multiplexed h in
      enqueue Handler.InFlightCommand.unimportant
        (Proto.ClientOp.publish (record {
          subject = subject;
          reply_subject = some reply_subject;
          headers = headers;
          payload = payload;
        }))
        (record h' {
          multiplexed_subscriptions = some (insert subject_cmp reply_subject reply senders);
        })

  unfoldable pub unsubscribe_multiplexed : Subject → Handler I C → Handler I C
  unfolding remove subject_cmp
  unsubscribe_multiplexed reply_subject h = elim h.multiplexed_subscriptions [
    | none ↦ h
    | some senders ↦ record h {
      multiplexed_subscriptions = some (remove subject_cmp reply_subject senders);
    }
  ]

  unfoldable pub unsubscribe_after :
      SubscriptionId → ℕ → Option Subscription → Handler I C → Handler I C
  unfolding insert
  unsubscribe_after id max_messages none h = h
  unsubscribe_after id max_messages (some s) h =
      enqueue Handler.InFlightCommand.unimportant
        (Proto.ClientOp.unsubscribe id (some max_messages))
        (record h {
          subscriptions =
              insert id_cmp id (record s { remaining = some max_messages }) h.subscriptions;
        })

  unfoldable pub unsubscribe_now : SubscriptionId → Option Subscription → Handler I C → Handler I C
  unfolding remove
  unsubscribe_now id none h = h
  unsubscribe_now id (some s) h =
      enqueue Handler.InFlightCommand.unimportant (Proto.ClientOp.unsubscribe id none)
        (record h { subscriptions = remove id_cmp id h.subscriptions })

  -- the arms of the loop over `recv_buf`
  unfoldable pub handle_command : HandlerCommand → Handler I C → Handler I C
  unfolding request_multiplexed unsubscribe_multiplexed unsubscribe_after unsubscribe_now get insert
  handle_command (Handler.HandlerCommand.publish m) h =
      enqueue Handler.InFlightCommand.unimportant (Proto.ClientOp.publish m) h
  handle_command (Handler.HandlerCommand.request_multiplexed s r m p reply) h =
      request_multiplexed s r m p reply h
  handle_command (Handler.HandlerCommand.unsubscribe_multiplexed r) h = unsubscribe_multiplexed r h
  handle_command (Handler.HandlerCommand.subscribe id subject queue_group messages) h =
      enqueue (Handler.InFlightCommand.subscribe id)
        (Proto.ClientOp.subscribe id subject queue_group)
        (record h {
          subscriptions =
              insert id_cmp id
                (record {
                  subject = subject;
                  queue_group = queue_group;
                  messages = messages;
                  remaining = none;
                  failed_subscribe = false;
                })
                h.subscriptions;
        })
  handle_command (Handler.HandlerCommand.unsubscribe id (some max_messages)) h =
      unsubscribe_after id max_messages (get id_cmp id h.subscriptions) h
  handle_command (Handler.HandlerCommand.unsubscribe id none) h =
      unsubscribe_now id (get id_cmp id h.subscriptions) h

  unfoldable pub close_subscription : SubscriptionId → CloseReason → Handler I C → Handler I C
  unfolding remove
  close_subscription id failed_subscribe h = record h {
    subscriptions = remove id_cmp id h.subscriptions;
  }
  close_subscription id dropped h =
      enqueue Handler.InFlightCommand.unimportant (Proto.ClientOp.unsubscribe id none)
        (record h { subscriptions = remove id_cmp id h.subscriptions })

  unfoldable pub close_subscriptions :
      List (SubscriptionId × CloseReason) → Handler I C → Handler I C
  unfolding close_subscription
  close_subscriptions [] h = h
  close_subscriptions ((id, reason) ∷ entries) h =
      close_subscriptions entries (close_subscription id reason h)

  unfoldable pub failed_unsubscribe : Channels → Handler I C → Handler I C
  unfolding retained closed_subscriptions close_subscriptions store_is_failed_unsubscribe
  failed_unsubscribe channels h =
      close_subscriptions (closed_subscriptions channels h.subscriptions) (record h {
        quick_info = store_is_failed_unsubscribe false h.quick_info;
        multiplexed_subscriptions = retained channels h.multiplexed_subscriptions;
      })

  -- `begin_shutdown`, less the closing of the channel of commands
  unfoldable pub begin_shutdown : Handler I C → Handler I C
  begin_shutdown h = record h { shutting_down = true }
