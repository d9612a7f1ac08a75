-- ===== src/Tests/Handling.antt =====
-- The theorems on the handler of the client at concrete inputs.
use watermelon.Prelude.{
  [], ◌∷◌, ◌++◌, none, some, Bytes, codes, length, drop, true, false, ◌+◌, ◌≡◌, refl, arith, ◌≤◌,
  if◌then◌else◌,
}
use watermelon.OrdMap.{get}
use watermelon.OrdMap.Order.{IsAscending}
use watermelon.Subject.{Subject}
use watermelon.SubscriptionId.{SubscriptionId}
use watermelon.Headers.Map
use watermelon.Proto.{ServerMessage, ServerOp}
use watermelon.Proto
use watermelon.QuickInfo.{QuickInfo}
use watermelon.QuickInfo
use watermelon.Handler.{Handler, Subscription, Channels, sent, full, InFlightCommand, id_cmp}
use watermelon.Handler
use watermelon.Handler.Ping
use watermelon.Handler.Commands.{RecycledHandler, connect, failed_unsubscribe}
use watermelon.Handler.Acks.{all_awaited}
use watermelon.Handler.Runs.{starts, goes, reads, in_flight_commands_match}
use watermelon.Handler.Runs
use watermelon.Handler.Subscriptions.{
  serve, items, is_closing, serve-remaining, failed_unsubscribe-get,
}

abbrev open_channels : Channels
open_channels = record { try_send = λ n. sent; is_closed = λ n. false }

abbrev closed_channels : Channels
closed_channels = record { try_send = λ n. full; is_closed = λ n. true }

abbrev seven : SubscriptionId
seven = record { id = 7 }

abbrev foo : Subject
foo = record { text = codes "foo" }

abbrev one_left : Subscription
one_left = record {
  subject = foo;
  queue_group = none;
  messages = 1;
  remaining = some 1;
  failed_subscribe = false;
}

abbrev recycled : RecycledHandler Bytes
recycled = record {
  info = none;
  quick_info = QuickInfo.new;
  multiplexed_subscription_prefix = record { text = codes "_INBOX.x" };
  subscriptions = (seven, one_left) ∷ [];
}

-- the handler of a new connection with one subscription
abbrev started : Handler Bytes Bytes
started = connect 0 (codes "{}") false recycled

abbrev answered : Handler Bytes Bytes
answered = record started { in_flight_commands = Handler.InFlightCommand.unimportant ∷ [] }

reads_ok :
    Runs.next (λ i. false) (reads open_channels Proto.ServerOp.success) started ≡ (answered, none)
unfolding Runs.next connect Handler.handle_success
reads_ok = refl

in_flight_commands_match_example :
    (answered.in_flight_commands ≡ drop (0 + 1) (all_awaited answered.written))
    × (0 + 1 ≤ length (all_awaited answered.written))
in_flight_commands_match_example =
    in_flight_commands_match (λ i. false) 0 (codes "{}") false recycled (0 + 1) answered
      (goes starts (reads open_channels Proto.ServerOp.success) reads_ok)

abbrev message : ServerMessage
message = record {
  status_code = none;
  status_description = none;
  subscription_id = seven;
  base = record { subject = foo; reply_subject = none; headers = Map.new; payload = codes "hi" };
}

serve-remaining_example :
    ((serve open_channels (message ∷ []) started).delivered
      ≡ started.delivered ++ items 1 (message ∷ []))
    × (get id_cmp seven (serve open_channels (message ∷ []) started).subscriptions ≡ none)
unfolding connect
serve-remaining_example =
    serve-remaining open_channels seven one_left (message ∷ []) started (tt, tt)
      (λ q. absurd (ground arith)) (unfold get in refl) refl (λ q. absurd (cc)) (refl, tt) refl

failed_unsubscribe-get_example :
    (get id_cmp seven (failed_unsubscribe closed_channels started).subscriptions
      ≡ if◌then◌else◌
          (is_closing closed_channels (get id_cmp seven started.subscriptions))
          none
          (get id_cmp seven started.subscriptions))
    × IsAscending id_cmp (failed_unsubscribe closed_channels started).subscriptions
unfolding connect
failed_unsubscribe-get_example = failed_unsubscribe-get closed_channels seven started (tt, tt)
