-- ===== src/Tests/Calling.antt =====
-- The theorems on the client at concrete inputs.

use watermelon.Prelude.{
  ◌+◌, ◌≤◌, ◌++◌, List, [], ◌∷◌, none, some, true, false, codes, ok, length, ◌≡◌, refl, arith,
}
use watermelon.Wire.Uint.{max_u64}
use watermelon.OrdMap.{get}
use watermelon.Subject.{Subject}
use watermelon.SubscriptionId.{SubscriptionId}
use watermelon.Headers.Map
use watermelon.Proto.{MessageBase, ServerMessage}
use watermelon.Proto
use watermelon.QuickInfo
use watermelon.Handler.{Handler, HandlerCommand, Sent, id_cmp}
use watermelon.Handler
use watermelon.Client.{Client, Subscription, subscribed}
use watermelon.Client
use watermelon.Client.Calls.{
  Call, calls, subscribes, publishes, tries_to_subscribe, subscribed_ids, count_up,
  calls-subscribed_ids,
}
use watermelon.Client.Subscribed.{Received}
use watermelon.Client.Subscribed.Order.{polls, backlog, taken_by, polls_in_order}
use watermelon.Client.Subscribed.Closing.{live, closes, closings, left_of, closings-live}
use watermelon.Client.Publishes.{Request, into_message_base}
use watermelon.Client.Requests.{ResponseFut, try_request}
use watermelon.Client.Requests.Registered.{
  all_sent, request_commands, handle_commands, one_reply, try_request-registers,
}
use watermelon.Client.Reconnects.{
  connect, fails, connects, min_reconnect_delay, backoff, connect-backoff,
}

abbrev foo : Subject
foo = record { text = codes "foo" }

abbrev inbox : Subject
inbox = record { text = codes "_INBOX" }

abbrev client : Client
client = record {
  commands = [];
  quick_info = QuickInfo.new;
  multiplexed_subscription_prefix = inbox;
  next_subscription_id = 2;
  inbox_prefix = inbox;
  default_response_timeout = 5;
}

abbrev hello : MessageBase
hello = record { subject = foo; reply_subject = none; headers = Map.new; payload = codes "hi" }

abbrev made : List Call
made =
    subscribes true 5 foo none ∷ publishes true hello ∷ tries_to_subscribe Sent.sent 6 foo none ∷ []

abbrev two_subscriptions : Client
two_subscriptions = record client {
  commands =
      Handler.HandlerCommand.subscribe (record { id = 2 }) foo none 5
      ∷ Handler.HandlerCommand.publish hello
      ∷ Handler.HandlerCommand.subscribe (record { id = 3 }) foo none 6
      ∷ [];
  next_subscription_id = 4;
}

made-calls : calls made (Client.new QuickInfo.new inbox inbox 5) ≡ some two_subscriptions
unfolding calls Client.new Client.subscribe Client.try_subscribe Client.enqueue_command
made-calls = refl

calls-subscribed_ids_example :
    (subscribed_ids two_subscriptions.commands ≡ count_up 2 2) × (4 ≤ max_u64)
calls-subscribed_ids_example = calls-subscribed_ids made QuickInfo.new inbox inbox 5 made-calls

abbrev message : ServerMessage
message = record {
  status_code = none;
  status_description = none;
  subscription_id = record { id = 2 };
  base = hello;
}

abbrev again : ServerMessage
again = record message { base = record hello { payload = codes "ho" } }

abbrev subscription : Subscription
subscription = record {
  id = record { id = 2 };
  receiver = 5;
  receiver_queue = [];
  status = subscribed;
}

abbrev arrivals : List Received
arrivals = Client.Poll.ready (ok message ∷ ok again ∷ []) ∷ Client.Poll.pending ∷ []

polls_in_order_example :
    (polls arrivals subscription).0 ++ backlog (polls arrivals subscription).1
    ≡ backlog subscription ++ taken_by arrivals subscription
polls_in_order_example = polls_in_order arrivals subscription

closings-live_example :
    closings
      (record { id = 2 })
      (live (closes false true ∷ []) false Sent.sent subscription client).commands
    ≤ closings (record { id = 2 }) [] + left_of subscribed
closings-live_example = closings-live (closes false true ∷ []) false Sent.sent subscription client

connect-backoff_example :
    (let waits = (connect (fails ∷ fails ∷ connects ∷ []) min_reconnect_delay).0 in
      waits ≡ backoff 0 (length waits))
    × (let waits = (connect (fails ∷ fails ∷ fails ∷ connects ∷ []) 0).0 in
        waits ≡ 0 ∷ (connect (fails ∷ fails ∷ connects ∷ []) min_reconnect_delay).0)
connect-backoff_example = connect-backoff (fails ∷ fails ∷ connects ∷ [])

abbrev asked : Request
asked = record {
  publish = record {
    subject = foo;
    reply_subject = some inbox;
    headers = Map.new;
    payload = codes "hi";
  };
  response_timeout = none;
}

abbrev handler : Handler (Unit {0}) (Unit {0})
handler = record {
  written = [];
  info = none;
  quick_info = QuickInfo.new;
  shutting_down = false;
  pinger = record { deadline = 10; pending_pings = 0 };
  in_flight_commands = [];
  multiplexed_subscription_prefix = inbox;
  multiplexed_subscriptions = none;
  subscriptions = [];
  delivered = [];
  replied = [];
}

try_request-registers_example :
    let id : SubscriptionId = record { id = 2 } in
    let commands = request_commands id 7 inbox asked in
    let h' = handle_commands commands handler in
    (c' : Client) × (fut : ResponseFut) × (try_request all_sent 0 7 asked client
      ≡ some (c', ok fut))
    × (c'.commands ≡ [] ++ commands)
    × (c'.next_subscription_id ≡ 2 + 1)
    × (get id_cmp id h'.subscriptions ≡ some (one_reply inbox 7))
    × (h'.written
        ≡ (([] ++ Proto.ClientOp.subscribe id inbox none ∷ [])
            ++ Proto.ClientOp.unsubscribe id (some 1) ∷ [])
          ++ Proto.ClientOp.publish (into_message_base asked.publish) ∷ [])
try_request-registers_example =
    try_request-registers handler 0 7 asked inbox client refl (omega arith)
