-- ===== src/Jetstream/Batches.antt =====
-- watermelon/src/client/jetstream/commands/consumer_batch.rs and consumer_stream.rs: a batch of messages
-- of a consumer, and the stream of such batches. What the subscription receives and whether the timer
-- has run out are arguments.
pub mod Bounded
use watermelon.Prelude.{
  min, ℕ, ◌+◌, ◌-◌, ◌==◌, ◌||◌, ◌&&◌, Bool, true, false, ◌++◌, Option, none, some, Bytes, codes,
  if◌then◌else◌, Result, ok, err,
}
use watermelon.Subject.{try_from}
use watermelon.ServerError.{ServerError, eq_ignore_ascii_case}
use watermelon.Proto.{ServerMessage}
use watermelon.Handler.{Sent}
use watermelon.Wire.Uint.{max_u64}
use watermelon.Client.{
  Client, ClientClosedError, Subscription, Poll, pending, ready, create_inbox_subject, subscribe,
}
use watermelon.Client.Subscribed.{Item, Received, dropped}
use watermelon.Client.Subscribed
use watermelon.Client.Publishes.{Publish, publish, builder, reply_subject, payload}
use watermelon.Jetstream.{JetstreamClient, JetstreamError, subject, json, client_closed}
use watermelon.Jetstream.Messages.{JetstreamMessage}
use watermelon.Jetstream.Messages

-- `timeout` is the duration that the timer was set to, in seconds.
pub record ConsumerBatch : Type 0 where
  pub subscription : Subscription
  pub timeout : ℕ
  pub pending_msgs : ℕ

pub data ConsumerBatchError : Type 0 where
  server_error : ServerError → ConsumerBatchError
  unexpected_status : ServerMessage → ConsumerBatchError

-- the kinds of status that a batch tells apart
pub data Status : Type 0 where
  message idle over unexpected : Status

unfoldable pub is_graceful_conflict : ServerMessage → Bool
unfolding eq_ignore_ascii_case
is_graceful_conflict m = elim m.status_description [
  | none ↦ false
  | some desc ↦
      eq_ignore_ascii_case desc (codes "Batch Completed")
      || eq_ignore_ascii_case desc (codes "Server Shutdown")
      || eq_ignore_ascii_case desc (codes "Leadership Change")
]

-- the match on `status_code`
unfoldable pub status : ServerMessage → Status
unfolding is_graceful_conflict
status m = elim m.status_code [
  | none ↦ message
  | some s ↦
      if s.code == 200
      then message
      else if s.code == 100
      then idle
      else if s.code == 408 || s.code == 404
      then over
      else if s.code == 409 && is_graceful_conflict m
      then over
      else unexpected
]

-- an item of the batch
abbrev pub BatchItem : Type 0
BatchItem = Result ConsumerBatchError JetstreamMessage

unfoldable pub ended : ConsumerBatch → ConsumerBatch
ended b = record b { pending_msgs = 0 }

unfoldable pub as_status :
    Status → ServerMessage → ConsumerBatch → ConsumerBatch × Poll (Option BatchItem)
unfolding ended Messages.new
as_status message m b =
    (record b { pending_msgs = b.pending_msgs - 1 }, ready (some (ok (Messages.new m))))
as_status idle m b = (b, pending)
as_status over m b = (ended b, ready none)
as_status unexpected m b = (b, ready (some (err (unexpected_status m))))

-- what the subscription yielded
unfoldable pub yielded :
    Bool → Poll (Option Item) → ConsumerBatch → ConsumerBatch × Poll (Option BatchItem)
unfolding ended status as_status
yielded false pending b = (b, pending)
yielded true pending b = (ended b, ready none)
yielded elapsed (ready none) b = (ended b, ready none)
yielded elapsed (ready (some (err e))) b = (ended b, ready (some (err (server_error e))))
yielded elapsed (ready (some (ok m))) b = as_status (status m) m b

unfoldable pub poll_next : Received → Bool → ConsumerBatch → ConsumerBatch × Poll (Option BatchItem)
unfolding Subscribed.poll_next yielded
poll_next received elapsed b =
    let (s, item) = Subscribed.poll_next received b.subscription in
    if b.pending_msgs == 0
    then (b, ready none)
    else yielded elapsed item (record b { subscription = s })

unfoldable pub is_terminated : ConsumerBatch → Bool
is_terminated b = b.pending_msgs == 0

-- what the channels answer while a batch is made
pub record Opening : Type 0 where
  pub subscribes : Bool
  pub publishes : Bool
  pub suffix : ℕ
  pub channel : ℕ
  pub is_closed : Bool
  pub drops : Sent

module _ {J : Type 0} where
  -- the request for the messages; a subscription that cannot be used is dropped
  unfoldable pub request_batch :
      Opening
      → Publish
      → ℕ
      → ℕ
      → Client × Subscription
      → Client × Result (JetstreamError J) ConsumerBatch
  unfolding publish dropped
  request_batch o p timeout max_msgs (c, s) =
      let (c', sent) = publish o.publishes p c in
      elim sent [
        | ok u ↦ (c', ok (record { subscription = s; timeout = timeout; pending_msgs = max_msgs }))
        | err e ↦ (dropped o.is_closed o.drops s c', err (client_closed e))
      ]

  -- behind the subscription
  unfoldable pub subscribed :
      Opening
      → Publish
      → ℕ
      → ℕ
      → Option (Client × Result ClientClosedError Subscription)
      → Option (Client × Result (JetstreamError J) ConsumerBatch)
  unfolding request_batch
  subscribed o p timeout max_msgs none = none
  subscribed o p timeout max_msgs (some (c, err e)) = some (c, err (client_closed e))
  subscribed o p timeout max_msgs (some (c, ok s)) =
      some (request_batch o p timeout max_msgs (c, s))

  -- `ConsumerBatch::new`, over the JSON of the request; `none` is an abort. A `Duration` saturates.
  unfoldable pub new :
      (ℕ → ℕ → Result J Bytes)
      → Opening
      → Bytes
      → Bytes
      → ℕ
      → ℕ
      → JetstreamClient
      → Client
      → Option (Client × Result (JetstreamError J) ConsumerBatch)
  unfolding try_from create_inbox_subject subscribe subscribed payload reply_subject builder
  new to_vec o stream_name name expires max_msgs j c =
      let text = j.prefix.text ++ codes ".CONSUMER.MSG.NEXT." ++ stream_name ++ codes "." ++ name in
      elim (try_from text) [
        | err e ↦ some (c, err (subject e))
        | ok s ↦ elim (to_vec expires max_msgs) [
          | err e ↦ some (c, err (json e))
          | ok bytes ↦
              let incoming = create_inbox_subject o.suffix c.inbox_prefix in
              subscribed o (payload bytes (reply_subject (some incoming) (builder s)))
                (min (expires + j.request_timeout) max_u64) max_msgs
                (subscribe o.subscribes o.channel incoming none c)
        ]
      ]

-- `ConsumerStreamStatus`; the future of a new batch is resolved by an argument
pub data ConsumerStreamStatus : Type 0 where
  polling broken : ConsumerStreamStatus
  running_batch : ConsumerBatch → ConsumerStreamStatus

pub data ConsumerStreamError (J : Type 0) : Type 0 where
  batch_error : ConsumerBatchError → ConsumerStreamError J
  jetstream : JetstreamError J → ConsumerStreamError J

module _ {J : Type 0} where
  -- what the running batch yielded
  unfoldable pub from_batch :
      ConsumerBatch × Poll (Option BatchItem)
      → ConsumerStreamStatus × Poll (Option (Result (ConsumerStreamError J) JetstreamMessage))
  from_batch (b, pending) = (running_batch b, pending)
  from_batch (b, ready (some (ok m))) = (running_batch b, ready (some (ok m)))
  from_batch (b, ready (some (err e))) = (broken, ready (some (err (batch_error e))))
  from_batch (b, ready none) = (polling, pending)

  unfoldable pub from_future :
      Poll (Result (JetstreamError J) ConsumerBatch)
      → ConsumerStreamStatus × Poll (Option (Result (ConsumerStreamError J) JetstreamMessage))
  from_future pending = (polling, pending)
  from_future (ready (ok b)) = (running_batch b, pending)
  from_future (ready (err e)) = (broken, ready (some (err (jetstream e))))

  -- `poll_next` of `ConsumerStream`
  unfoldable pub poll_stream :
      Received
      → Bool
      → Poll (Result (JetstreamError J) ConsumerBatch)
      → ConsumerStreamStatus
      → ConsumerStreamStatus × Poll (Option (Result (ConsumerStreamError J) JetstreamMessage))
  unfolding poll_next from_batch from_future
  poll_stream received elapsed made (running_batch b) = from_batch (poll_next received elapsed b)
  poll_stream received elapsed made polling = from_future made
  poll_stream received elapsed made broken = (broken, ready none)
