-- ===== src/Tests/Polling.antt =====
-- The theorems on `poll` of the handler, and on JetStream, at concrete inputs.
use watermelon.Prelude.{
  ℕ, ◌+◌, ◌≤◌, List, [], ◌∷◌, none, some, Option, Bool, true, false, codes, ok, err, map, All, ◌≢◌,
  ◌≡◌, refl, arith,
}
use watermelon.Subject.{Subject}
use watermelon.Headers.Map
use watermelon.Proto.{ServerMessage}
use watermelon.Proto
use watermelon.Proto.Encoder.Stream
use watermelon.Proto.Encoder.Stream.Pending.{pending}
use watermelon.QuickInfo
use watermelon.Handler.{Handler, HandlerOutput, Channels, closed}
use watermelon.Handler
use watermelon.Handler.Delay.{Delayed, poll_can_proceed}
use watermelon.Connection.{enqueue_write_op, may_enqueue_more_ops, may_write}
use watermelon.Connection
use watermelon.Handler.Polls.{Driver}
use watermelon.Handler.Polls.Whole.{Inputs, poll}
use watermelon.Handler.Polls.Closed.{closed_drained}
use watermelon.Handler.Polls.Undrained.{closed_undrained}
use watermelon.Client.{Client, subscribed}
use watermelon.Client
use watermelon.Client.Subscribed.{Received}
use watermelon.Jetstream.Listings
use watermelon.Jetstream.Listings.{is_terminated}
use watermelon.Jetstream.Listings.Complete.{polls-new_complete}
use watermelon.Jetstream.Listings.Complete
use watermelon.Jetstream.Messages.{new, already_acknowledged}
use watermelon.Jetstream.Messages.Acknowledged.{
  Ack, ack, nak, progress, run, heard, reply_with, enqueue_all, run-new-heard,
}
use watermelon.Jetstream.Batches.{ConsumerBatch}
use watermelon.Jetstream.Batches
use watermelon.Jetstream.Batches.Bounded.{messages, polls-messages}
use watermelon.Jetstream.Batches.Bounded
use watermelon.Tests.Instance.{crates}
use watermelon.Prelude.{Bytes}

abbrev inbox : Subject
inbox = record { text = codes "_INBOX" }

abbrev handler : Handler Bytes Bytes
handler = record {
  written = [];
  info = none;
  quick_info = QuickInfo.new;
  shutting_down = true;
  pinger = record { deadline = 10; pending_pings = 0 };
  in_flight_commands = [];
  multiplexed_subscription_prefix = inbox;
  multiplexed_subscriptions = none;
  subscriptions = [];
  delivered = [];
  replied = [];
}

-- a handler that shuts down with one operation still to write
abbrev waiting : Delayed → Driver Bytes Bytes
waiting delayed = record {
  handler = handler;
  conn = enqueue_write_op crates Proto.ClientOp.ping Connection.new;
  delayed_write = delayed;
  writing = false;
  flushing = false;
}

abbrev channels : Channels
channels = record { try_send = λ n. Handler.Sent.sent; is_closed = λ n. false }

abbrev no_lame_duck : Bytes → Bool
no_lame_duck i = false

-- the channel of commands is empty, and the socket takes the six bytes
abbrev writes_all : Inputs Bytes
writes_all = record {
  now = 0;
  channels = channels;
  shutdown_requested = false;
  reads = [];
  read_fails = false;
  rounds =
      record {
        batches = [];
        budget_before = true;
        is_write_vectored = false;
        write = Connection.Poll.ready 6;
        budget_after = true;
      }
      ∷ [];
  flush = Connection.Poll.ready tt;
}

abbrev driver_of : Option (Driver Bytes Bytes × Option HandlerOutput) → Driver Bytes Bytes
driver_of (some (d, output)) = d
driver_of none = waiting (record { inner = none })

abbrev drained : Driver Bytes Bytes
drained = driver_of (poll crates no_lame_duck writes_all (waiting (record { inner = none })))

drained_closed :
    poll crates no_lame_duck writes_all (waiting (record { inner = none }))
    ≡ some (drained, some closed)
unfolding poll Stream.small_write Connection.new
drained_closed = refl

closed_drained_example :
    (drained.handler.shutting_down ≡ true)
    × (drained.writing ≡ false)
    × (drained.flushing ≡ false)
    × (pending drained.conn.encoder ≡ [])
closed_drained_example =
    closed_drained crates no_lame_duck writes_all (waiting (record { inner = none })) drained refl
      drained_closed

-- a delay of five that ends at seven
abbrev delayed : Delayed
delayed = record { inner = some (record { duration = 5; delay = 7; delay_consumed = false }) }

waiting_conn :
    (may_enqueue_more_ops (waiting delayed).conn ≡ true) × (may_write (waiting delayed).conn ≡ true)
unfolding may_enqueue_more_ops may_write enqueue_write_op Connection.new Stream.small_write
waiting_conn = (refl, refl)

waiting_delays : (poll_can_proceed 0 delayed).1 ≡ false
unfolding poll_can_proceed
waiting_delays = refl

closed_undrained_example :
    (d' : Driver Bytes Bytes) × (poll crates no_lame_duck
        (record writes_all { rounds = [] })
        (waiting delayed)
      ≡ some (d', some closed))
    × (d'.conn ≡ (waiting delayed).conn)
closed_undrained_example =
    closed_undrained crates no_lame_duck 0 channels false (Connection.Poll.ready tt)
      (waiting delayed) refl refl refl (omega arith) waiting_conn.0 waiting_conn.1 waiting_delays

abbrev listed : List ℕ
listed = 5 ∷ 6 ∷ 7 ∷ []

polls-new_complete_example :
    ((Complete.polls 7 2 listed Listings.new).1 ≡ listed)
    × (is_terminated (Complete.polls 7 2 listed Listings.new).0 ≡ true)
polls-new_complete_example = polls-new_complete 7 2 listed (omega arith) (omega arith) (omega arith)

abbrev message : ServerMessage
message = record {
  status_code = none;
  status_description = none;
  subscription_id = record { id = 2 };
  base = record { subject = inbox; reply_subject = some inbox; headers = Map.new; payload = [] };
}

abbrev client : Client
client = record {
  commands = [];
  quick_info = QuickInfo.new;
  multiplexed_subscription_prefix = inbox;
  next_subscription_id = 2;
  inbox_prefix = inbox;
  default_response_timeout = 5;
}

abbrev acks : List (Ack × Bool)
acks = (progress, true) ∷ (nak, true) ∷ (ack, true) ∷ []

run-new-heard_example :
    ((run acks (new message) client).1 ≡ enqueue_all (map (reply_with inbox) (heard acks)) client)
    × All (λ acked. acked ≢ err already_acknowledged) (run acks (new message) client).2
run-new-heard_example = run-new-heard acks message inbox client refl

abbrev batch : ConsumerBatch
batch = record {
  subscription = record {
    id = record { id = 2 };
    receiver = 5;
    receiver_queue = [];
    status = subscribed;
  };
  timeout = 30;
  pending_msgs = 1;
}

abbrev arrivals : List (Received × Bool)
arrivals =
    (Client.Poll.ready (ok message ∷ ok message ∷ []), false) ∷ (Client.Poll.pending, true) ∷ []

polls-messages_example :
    (messages (Bounded.polls arrivals batch).1 + (Bounded.polls arrivals batch).0.pending_msgs ≤ 1)
    × (Batches.is_terminated batch ≡ true
        → ((Bounded.polls arrivals batch).0 ≡ batch)
          × All (λ item. item ≡ Client.Poll.ready none) (Bounded.polls arrivals batch).1)
polls-messages_example = polls-messages arrivals batch
