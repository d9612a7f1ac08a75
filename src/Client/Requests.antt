-- ===== src/Client/Requests.antt =====
-- watermelon/src/client/commands/request.rs and multiplexed_subscription.rs: requests and their
-- responses. What the channels and the timer answer are arguments.
pub mod Registered
use watermelon.Prelude.{
  ℕ, ◌==◌, Bool, true, false, Option, none, some, Bytes, Ordering, Result, ok, err, if◌then◌else◌,
}
use watermelon.Subject.{Subject}
use watermelon.ServerError.{ServerError}
use watermelon.Headers.Map.{HeaderMap}
use watermelon.Headers.Name.{HeaderName}
use watermelon.Headers.Value.{HeaderValue}
use watermelon.Proto.{ServerMessage}
use watermelon.Handler.{Sent}
use watermelon.Client.{
  Client, ClientClosedError, client_closed, TryCommandError, Subscription, MultiplexedSubscription,
  Poll, pending, ready, subscribe, try_subscribe, multiplexed_request, try_multiplexed_request,
  lazy_unsubscribe, lazy_unsubscribe_multiplexed,
}
use watermelon.Client.Subscribed.{Item, Received, poll_next, dropped}
use watermelon.Client.Publishes.{Request, publish, try_publish}
use watermelon.Client.Publishes

pub data ResponseSubscription : Type 0 where
  multiplexed : MultiplexedSubscription → ResponseSubscription
  subscription : Subscription → ResponseSubscription

-- `timeout` is the duration that the timer was set to.
pub record ResponseFut : Type 0 where
  pub subscription : ResponseSubscription
  pub timeout : ℕ

pub data ResponseError : Type 0 where
  server_error : ServerError → ResponseError
  no_responders timed_out subscription_closed : ResponseError

-- what a `oneshot::Receiver` returns; no message means that the sender is gone
abbrev pub Oneshot : Type 0
Oneshot = Poll (Option ServerMessage)

-- `RequestBuilder::subject`
unfoldable pub builder : Subject → Request
unfolding Publishes.builder
builder subject = record { publish = Publishes.builder subject; response_timeout = none }

unfoldable pub reply_subject : Option Subject → Request → Request
unfolding Publishes.reply_subject
reply_subject s r = record r { publish = Publishes.reply_subject s r.publish }

unfoldable pub header :
    (HeaderName → HeaderName → Ordering) → HeaderName → HeaderValue → Request → Request
unfolding Publishes.header
header cmp name value r = record r { publish = Publishes.header cmp name value r.publish }

unfoldable pub headers : HeaderMap → Request → Request
unfolding Publishes.headers
headers map r = record r { publish = Publishes.headers map r.publish }

unfoldable pub response_timeout : ℕ → Request → Request
response_timeout timeout r = record r { response_timeout = some timeout }

unfoldable pub payload : Bytes → Request → Request
unfolding Publishes.payload
payload bytes r = record r { publish = Publishes.payload bytes r.publish }

-- `MultiplexedSubscription::poll`; polled once more after it was ready, it panics, which is `none`.
unfoldable pub poll_multiplexed :
    Oneshot
    → MultiplexedSubscription
    → Option (MultiplexedSubscription × Poll (Result ClientClosedError ServerMessage))
poll_multiplexed outcome m = elim m.subscription [
  | none ↦ none
  | some inner ↦ elim outcome [
    | pending ↦ some (m, pending)
    | ready none ↦ some (record { subscription = none }, ready (err client_closed))
    | ready (some msg) ↦ some (record { subscription = none }, ready (ok msg))
  ]
]

-- `drop` of it
unfoldable pub drop_multiplexed : Sent → MultiplexedSubscription → Client → Client
unfolding lazy_unsubscribe_multiplexed
drop_multiplexed outcome m c = elim m.subscription [
  | none ↦ c
  | some inner ↦ lazy_unsubscribe_multiplexed outcome inner.reply_subject c
]

-- whether the status is `StatusCode::NO_RESPONDERS`
unfoldable pub has_no_responders : ServerMessage → Bool
has_no_responders m = elim m.status_code [ none ↦ false | some status ↦ status.code == 503 ]

unfoldable pub answer : ServerMessage → Poll (Result ResponseError ServerMessage)
unfolding has_no_responders
answer m = if has_no_responders m then ready (err no_responders) else ready (ok m)

-- nothing has come yet
unfoldable pub wait : Bool → Poll (Result ResponseError ServerMessage)
wait true = ready (err timed_out)
wait false = pending

unfoldable pub response_multiplexed :
    Bool → Poll (Result ClientClosedError ServerMessage) → Poll (Result ResponseError ServerMessage)
unfolding answer wait
response_multiplexed elapsed pending = wait elapsed
response_multiplexed elapsed (ready (ok m)) = answer m
response_multiplexed elapsed (ready (err e)) = ready (err subscription_closed)

unfoldable pub response_subscribed :
    Bool → Poll (Option Item) → Poll (Result ResponseError ServerMessage)
unfolding answer wait
response_subscribed elapsed pending = wait elapsed
response_subscribed elapsed (ready none) = ready (err subscription_closed)
response_subscribed elapsed (ready (some (ok m))) = answer m
response_subscribed elapsed (ready (some (err e))) = ready (err (server_error e))

unfoldable pub poll_as :
    Oneshot
    → Received
    → Bool
    → ResponseSubscription
    → Option (ResponseSubscription × Poll (Result ResponseError ServerMessage))
unfolding poll_multiplexed response_multiplexed response_subscribed
poll_as oneshot received elapsed (multiplexed m) = elim (poll_multiplexed oneshot m) [
  | none ↦ none
  | some (m', p) ↦ some (multiplexed m', response_multiplexed elapsed p)
]
poll_as oneshot received elapsed (subscription s) =
    let (s', p) = poll_next received s in some (subscription s', response_subscribed elapsed p)

-- `ResponseFut::poll`; the flag says whether the timer has elapsed.
unfoldable pub poll :
    Oneshot
    → Received
    → Bool
    → ResponseFut
    → Option (ResponseFut × Poll (Result ResponseError ServerMessage))
unfolding poll_as
poll oneshot received elapsed fut = elim (poll_as oneshot received elapsed fut.subscription) [
  | none ↦ none
  | some (s, p) ↦ some (record fut { subscription = s }, p)
]

-- the timer that is set
unfoldable pub timeout_of : Request → Client → ℕ
timeout_of r c = elim r.response_timeout [ none ↦ c.default_response_timeout | some t ↦ t ]

-- What the channel of commands answers to the calls of one request.
pub record Answers : Type 0 where
  pub subscribes : Sent
  pub unsubscribes : Sent
  pub publishes : Sent
  pub is_closed : Bool
  pub drops : Sent

-- behind the subscription; if the publication is refused, the subscription is dropped
unfoldable pub try_request_subscribed :
    Answers → Request → Client × Subscription → Client × Result TryCommandError ResponseFut
unfolding lazy_unsubscribe try_publish timeout_of dropped
try_request_subscribed answers r (c, s) =
    let c1 = lazy_unsubscribe answers.unsubscribes s.id (some 1) c in
    let (c2, published) = try_publish answers.publishes r.publish c1 in
    elim published [
      | ok u ↦ (c2, ok (record { subscription = subscription s; timeout = timeout_of r c2 }))
      | err e ↦ (dropped answers.is_closed answers.drops s c2, err e)
    ]

unfoldable pub try_request_multiplexed :
    Sent → ℕ → ℕ → Request → Client → Client × Result TryCommandError ResponseFut
unfolding try_multiplexed_request timeout_of
try_request_multiplexed outcome suffix channel r c =
    let p = r.publish in
    let (c', tried) =
      try_multiplexed_request outcome suffix channel p.subject p.headers p.payload c in
    elim tried [
      | ok m ↦ (c', ok (record { subscription = multiplexed m; timeout = timeout_of r c' }))
      | err e ↦ (c', err e)
    ]

-- `none` is an abort.
unfoldable pub try_request :
    Answers → ℕ → ℕ → Request → Client → Option (Client × Result TryCommandError ResponseFut)
unfolding try_subscribe try_request_subscribed try_request_multiplexed
try_request answers suffix channel r c = elim r.publish.reply_subject [
  | none ↦ some (try_request_multiplexed answers.subscribes suffix channel r c)
  | some reply_subject ↦ elim (try_subscribe answers.subscribes channel reply_subject none c) [
    | none ↦ none
    | some (c', err e) ↦ some (c', err e)
    | some (c', ok s) ↦ some (try_request_subscribed answers r (c', s))
  ]
]

-- The same for `request`, which waits for room: the flags say whether the channel is open.
unfoldable pub request_subscribed :
    Bool → Answers → Request → Client × Subscription → Client × Result ClientClosedError ResponseFut
unfolding lazy_unsubscribe publish timeout_of dropped
request_subscribed open_channel answers r (c, s) =
    let c1 = lazy_unsubscribe answers.unsubscribes s.id (some 1) c in
    let (c2, published) = publish open_channel r.publish c1 in
    elim published [
      | ok u ↦ (c2, ok (record { subscription = subscription s; timeout = timeout_of r c2 }))
      | err e ↦ (dropped answers.is_closed answers.drops s c2, err e)
    ]

unfoldable pub request_multiplexed :
    Bool → ℕ → ℕ → Request → Client → Client × Result ClientClosedError ResponseFut
unfolding multiplexed_request timeout_of
request_multiplexed open_channel suffix channel r c =
    let p = r.publish in
    let (c', requested) =
      multiplexed_request open_channel suffix channel p.subject p.headers p.payload c in
    elim requested [
      | ok m ↦ (c', ok (record { subscription = multiplexed m; timeout = timeout_of r c' }))
      | err e ↦ (c', err e)
    ]

unfoldable pub request :
    Bool
    → Bool
    → Answers
    → ℕ
    → ℕ
    → Request
    → Client
    → Option (Client × Result ClientClosedError ResponseFut)
unfolding subscribe request_subscribed request_multiplexed
request open_first open_then answers suffix channel r c = elim r.publish.reply_subject [
  | none ↦ some (request_multiplexed open_first suffix channel r c)
  | some reply_subject ↦ elim (subscribe open_first channel reply_subject none c) [
    | none ↦ none
    | some (c', err e) ↦ some (c', err e)
    | some (c', ok s) ↦ some (request_subscribed open_then answers r (c', s))
  ]
]
