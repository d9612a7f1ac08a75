-- ===== src/Client.antt =====
-- watermelon/src/client/mod.rs, with the structs of subscription.rs and multiplexed_subscription.rs: a
-- handle to a running handler. One call is one step. The channel of commands is the list of what it
-- took, in order; whether it takes a command is an argument. Random bytes and the numbers of new
-- channels are arguments too. An `abort` is `none`.
pub mod Subscribed
pub mod Calls
pub mod Inbox
pub mod Publishes
pub mod Requests
pub mod Reconnects
use watermelon.Prelude.{
  ℕ, zero, suc, ◌+◌, ◌/◌, ◌%◌, ◌^◌, ◌==◌, Bool, true, false, List, [], ◌∷◌, ◌++◌, Option, none,
  some, Bytes, ltb, if◌then◌else◌, Result, ok, err,
}
use watermelon.Wire.Uint.{max_u64}
use watermelon.Subject.{Subject, from_dangerous_value}
use watermelon.QueueGroup.{QueueGroup}
use watermelon.SubscriptionId.{SubscriptionId}
use watermelon.ServerError.{ServerError}
use watermelon.Headers.Map.{HeaderMap}
use watermelon.Proto.{ServerMessage}
use watermelon.QuickInfo.{RawQuickInfo, store_is_failed_unsubscribe}
use watermelon.Handler.{
  HandlerCommand, Sent, multiplexed_subscription_id, request_multiplexed, unsubscribe_multiplexed,
}
use watermelon.Handler

-- the fields of `ClientInner` that the operations read or change
pub record Client : Type 0 where
  pub commands : List HandlerCommand
  pub quick_info : RawQuickInfo
  pub multiplexed_subscription_prefix : Subject
  pub next_subscription_id : ℕ
  pub inbox_prefix : Subject
  pub default_response_timeout : ℕ

pub data ClientClosedError : Type 0 where
  client_closed : ClientClosedError

pub data TryCommandError : Type 0 where
  buffer_full : TryCommandError
  closed : ClientClosedError → TryCommandError

pub data SubscriptionStatus : Type 0 where
  subscribed unsubscribed : SubscriptionStatus

-- `Subscription`: `receiver` is the number of its channel. The last item of `receiver_queue` is the
-- next.
pub record Subscription : Type 0 where
  pub id : SubscriptionId
  pub receiver : ℕ
  pub receiver_queue : List (Result ServerError ServerMessage)
  pub status : SubscriptionStatus

-- `Inner` of `MultiplexedSubscription`
pub record Inner : Type 0 where
  pub reply_subject : Subject
  pub receiver : ℕ

pub record MultiplexedSubscription : Type 0 where
  pub subscription : Option Inner

-- `Poll`
pub data Poll (A : Type 0) : Type 0 where
  pending : Poll A
  ready : A → Poll A

-- the construction at the end of `connect` and `connect_lazy`
unfoldable pub new : RawQuickInfo → Subject → Subject → ℕ → Client
new quick_info multiplexed_subscription_prefix inbox_prefix default_response_timeout = record {
  commands = [];
  quick_info = quick_info;
  multiplexed_subscription_prefix = multiplexed_subscription_prefix;
  next_subscription_id = multiplexed_subscription_id.id + 1;
  inbox_prefix = inbox_prefix;
  default_response_timeout = default_response_timeout;
}

-- a digit of `{:x}`
unfoldable pub hex_digit : ℕ → ℕ
hex_digit d = if ltb d 10 then 48 + d else 87 + d

-- `{:x}`: the digits, without leading zeros; each round prints one
unfoldable pub hex : ℕ → ℕ → Bytes
unfolding hex_digit
hex zero n = hex_digit (n % 16) ∷ []
hex (suc rounds) n =
    let front = hex rounds (n / 16) in
    if ltb n 16 then hex_digit n ∷ [] else front ++ hex_digit (n % 16) ∷ []

-- The suffix is the random `u128`, which has 32 digits at most.
unfoldable pub create_inbox_subject : ℕ → Subject → Subject
unfolding hex from_dangerous_value
create_inbox_subject suffix prefix = from_dangerous_value (prefix.text ++ b'.' ∷ hex 31 suffix)

unfoldable pub push : HandlerCommand → Client → Client
push command c = record c { commands = c.commands ++ command ∷ [] }

-- `from_try_send_error`, behind `try_send`
unfoldable pub try_enqueue_command :
    Sent → HandlerCommand → Client → Client × Result TryCommandError (Unit {0})
unfolding push
try_enqueue_command Sent.sent command c = (push command c, ok tt)
try_enqueue_command Sent.full command c = (c, err buffer_full)
try_enqueue_command Sent.closed command c = (c, err (closed client_closed))

-- `send`; the flag says whether the channel is open once it has room
unfoldable pub enqueue_command :
    Bool → HandlerCommand → Client → Client × Result ClientClosedError (Unit {0})
unfolding push
enqueue_command true command c = (push command c, ok tt)
enqueue_command false command c = (c, err client_closed)

unfoldable pub do_subscribe :
    ℕ → Subject → Option QueueGroup → Client → Option (Client × Subscription)
unfolding push
do_subscribe channel filter_subject queue_group c =
    let id : SubscriptionId = record { id = c.next_subscription_id } in
    let counted = record c { next_subscription_id = (c.next_subscription_id + 1) % 2 ^ 64 } in
    if c.next_subscription_id == max_u64
    then none
    else some (
      push (Handler.HandlerCommand.subscribe id filter_subject queue_group channel) counted,
      record { id = id; receiver = channel; receiver_queue = []; status = subscribed },
    )

-- what is returned with a permit
unfoldable pub permitted {ℓ} :
    {E : Type 0} {A : Type ℓ} → Option (Client × A) → Option (Client × Result E A)
permitted none = none
permitted (some (c, a)) = some (c, ok a)

-- The flag says whether `reserve` gets a permit.
unfoldable pub subscribe :
    Bool
    → ℕ
    → Subject
    → Option QueueGroup
    → Client
    → Option (Client × Result ClientClosedError Subscription)
unfolding do_subscribe permitted
subscribe true channel subject group c = permitted (do_subscribe channel subject group c)
subscribe false channel subject group c = some (c, err client_closed)

-- Every refusal of `try_reserve` is reported as a full buffer.
unfoldable pub try_subscribe :
    Sent
    → ℕ
    → Subject
    → Option QueueGroup
    → Client
    → Option (Client × Result TryCommandError Subscription)
unfolding do_subscribe permitted
try_subscribe Sent.sent channel subject group c = permitted (do_subscribe channel subject group c)
try_subscribe _ channel subject group c = some (c, err buffer_full)

unfoldable pub do_multiplexed_request :
    ℕ → ℕ → Subject → HeaderMap → Bytes → Client → Client × MultiplexedSubscription
unfolding create_inbox_subject push
do_multiplexed_request suffix channel subject headers payload c =
    let reply_subject = create_inbox_subject suffix c.multiplexed_subscription_prefix in
    (
      push (request_multiplexed subject reply_subject headers payload channel) c,
      record { subscription = some (record { reply_subject = reply_subject; receiver = channel }) },
    )

unfoldable pub multiplexed_request :
    Bool
    → ℕ
    → ℕ
    → Subject
    → HeaderMap
    → Bytes
    → Client
    → Client × Result ClientClosedError MultiplexedSubscription
unfolding do_multiplexed_request
multiplexed_request true suffix channel subject headers payload c =
    let (c', m) = do_multiplexed_request suffix channel subject headers payload c in (c', ok m)
multiplexed_request false suffix channel subject headers payload c = (c, err client_closed)

unfoldable pub try_multiplexed_request :
    Sent
    → ℕ
    → ℕ
    → Subject
    → HeaderMap
    → Bytes
    → Client
    → Client × Result TryCommandError MultiplexedSubscription
unfolding do_multiplexed_request
try_multiplexed_request Sent.sent suffix channel subject headers payload c =
    let (c', m) = do_multiplexed_request suffix channel subject headers payload c in (c', ok m)
try_multiplexed_request _ suffix channel subject headers payload c = (c, err buffer_full)

-- A command that is lost is made up for by the flag.
unfoldable pub lazily : Sent → HandlerCommand → Client → Client
unfolding try_enqueue_command store_is_failed_unsubscribe
lazily Sent.sent command c = (try_enqueue_command Sent.sent command c).0
lazily _ command c = record c { quick_info = store_is_failed_unsubscribe true c.quick_info }

unfoldable pub lazy_unsubscribe_multiplexed : Sent → Subject → Client → Client
unfolding lazily
lazy_unsubscribe_multiplexed outcome reply_subject =
    lazily outcome (unsubscribe_multiplexed reply_subject)

unfoldable pub lazy_unsubscribe : Sent → SubscriptionId → Option ℕ → Client → Client
unfolding lazily
lazy_unsubscribe outcome id max_messages =
    lazily outcome (Handler.HandlerCommand.unsubscribe id max_messages)

unfoldable pub unsubscribe :
    Bool → SubscriptionId → Option ℕ → Client → Client × Result ClientClosedError (Unit {0})
unfolding enqueue_command
unsubscribe open_channel id max_messages =
    enqueue_command open_channel (Handler.HandlerCommand.unsubscribe id max_messages)
