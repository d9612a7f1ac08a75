-- ===== src/Client/Subscribed.antt =====
-- watermelon/src/subscription.rs: what the holder of a subscription does. Whether the sender's side of
-- its channel is gone, and what `poll_recv_many` returns, are arguments.
pub mod Order
pub mod Closing
use mathlib.Core.List.{reverse}
use watermelon.Prelude.{
  ℕ, Bool, true, false, List, [], ◌∷◌, Option, none, some, Result, ok, err, is_empty, length, ◌&&◌,
}
use watermelon.ServerError.{ServerError}
use watermelon.Proto.{ServerMessage}
use watermelon.Handler.{Sent}
use watermelon.Client.{
  Client, ClientClosedError, Subscription, SubscriptionStatus, subscribed, unsubscribed,
  unsubscribe, lazy_unsubscribe, Poll, pending, ready,
}

abbrev pub Item : Type 0
Item = Result ServerError ServerMessage

-- what `poll_recv_many` returns; no items mean that the channel is closed and drained
abbrev pub Received : Type 0
Received = Poll (List Item)

-- `Vec::pop`
unfoldable pub pop : List Item → Option (List Item × Item)
pop queue = elim (reverse queue) [ [] ↦ none | x ∷ rest ↦ some (reverse rest, x) ]

unfoldable pub closed_as :
    SubscriptionStatus
    → Bool
    → Bool
    → Option ℕ
    → Subscription
    → Client
    → Subscription × Client × Result ClientClosedError (Unit {0})
unfolding unsubscribe
closed_as unsubscribed is_closed open_channel max s c = (s, c, ok tt)
closed_as subscribed true open_channel max s c = (record s { status = unsubscribed }, c, ok tt)
closed_as subscribed false open_channel (some n) s c =
    let (c', r) = unsubscribe open_channel s.id (some n) c in (s, c', r)
closed_as subscribed false open_channel none s c =
    let (c', r) = unsubscribe open_channel s.id none c in
    elim r [ ok u ↦ (record s { status = unsubscribed }, c', ok tt) | err e ↦ (s, c', err e) ]

unfoldable pub close :
    Bool
    → Bool
    → Subscription
    → Client
    → Subscription × Client × Result ClientClosedError (Unit {0})
unfolding closed_as
close is_closed open_channel s c = closed_as s.status is_closed open_channel none s c

unfoldable pub close_after :
    Bool
    → Bool
    → ℕ
    → Subscription
    → Client
    → Subscription × Client × Result ClientClosedError (Unit {0})
unfolding closed_as
close_after is_closed open_channel max s c =
    closed_as s.status is_closed open_channel (some max) s c

-- the item that `pop` yields, out of a queue that stands for the field
unfoldable pub popped : Option (List Item × Item) → Subscription → Subscription × Poll (Option Item)
popped none s = (s, ready none)
popped (some (queue, x)) s = (record s { receiver_queue = queue }, ready (some x))

unfoldable pub poll_receiver : Received → Subscription → Subscription × Poll (Option Item)
unfolding pop popped
poll_receiver pending s = (s, pending)
poll_receiver (ready []) s = (record s { status = unsubscribed }, ready none)
poll_receiver (ready (x ∷ xs)) s =
    popped (pop (reverse (x ∷ xs))) (record s { receiver_queue = reverse (x ∷ xs) })

unfoldable pub poll_next : Received → Subscription → Subscription × Poll (Option Item)
unfolding pop popped poll_receiver
poll_next received s = elim (pop s.receiver_queue) [
  | some p ↦ popped (some p) s
  | none ↦ poll_receiver received s
]

unfoldable pub size_hint : Subscription → ℕ
size_hint s = length s.receiver_queue

unfoldable pub is_terminated : Bool → Subscription → Bool
is_terminated is_closed s = is_closed && is_empty s.receiver_queue

unfoldable pub dropped_as : SubscriptionStatus → Bool → Sent → Subscription → Client → Client
unfolding lazy_unsubscribe
dropped_as unsubscribed is_closed outcome s c = c
dropped_as subscribed true outcome s c = c
dropped_as subscribed false outcome s c = lazy_unsubscribe outcome s.id none c

-- `drop`
unfoldable pub dropped : Bool → Sent → Subscription → Client → Client
unfolding dropped_as
dropped is_closed outcome s c = dropped_as s.status is_closed outcome s c
