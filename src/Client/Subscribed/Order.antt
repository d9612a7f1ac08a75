-- ===== src/Client/Subscribed/Order.antt =====
-- In which order a subscription yields what its channel holds.
use mathlib.Core.List.{reverse, reverse-reverse}
use watermelon.Prelude.{
  List, [], ◌∷◌, ◌++◌, Option, none, some, ◌≡◌, refl, sym, ap, ◌∙◌, append-nil, append_assoc,
}
use watermelon.Client.{Subscription, Poll, pending, ready}
use watermelon.Client.Subscribed.{Item, Received, pop, popped, poll_receiver, poll_next}

-- the items buffered, the next one first
abbrev pub backlog : Subscription → List Item
backlog s = reverse s.receiver_queue

-- the items that a poll takes off the channel: it asks only with an empty buffer
abbrev taken_with : List Item → Received → List Item
taken_with (x ∷ xs) received = []
taken_with [] pending = []
taken_with [] (ready xs) = xs

abbrev pub taken : Received → Subscription → List Item
taken received s = taken_with (backlog s) received

-- the items that a poll yields
abbrev pub yielded : Poll (Option Item) → List Item
yielded pending = []
yielded (ready none) = []
yielded (ready (some x)) = x ∷ []

pop-cons :
    (queue : List Item) (x : Item) (rest : List Item)
    → reverse queue ≡ x ∷ rest
    → pop queue ≡ some (reverse rest, x)
unfolding pop
pop-cons queue x rest e = rw (e, pop) refl

pop-nil : (queue : List Item) → reverse queue ≡ [] → pop queue ≡ none
unfolding pop
pop-nil queue e = rw (e, pop) refl

-- A poll takes what it yields from the front of what is buffered and taken.
poll_order_of :
    (received : Received) (s : Subscription) (l : List Item)
    → backlog s ≡ l
    → let polled = poll_next received s in
      yielded polled.1 ++ backlog polled.0 ≡ l ++ taken_with l received
unfolding poll_next popped
poll_order_of received s (x ∷ rest) e =
    rw (pop-cons s.receiver_queue x rest e, poll_next)
      (ap (◌∷◌ x) (reverse-reverse rest ∙ sym (append-nil rest)))
poll_order_of pending s [] e = rw (pop-nil s.receiver_queue e, poll_next, poll_receiver) e
poll_order_of (ready []) s [] e = rw (pop-nil s.receiver_queue e, poll_next, poll_receiver) e
poll_order_of (ready (x ∷ xs)) s [] e =
    rw (pop-nil s.receiver_queue e, poll_next, poll_receiver)
      (rw (pop-cons (reverse (x ∷ xs)) x xs (reverse-reverse (x ∷ xs)))
        (ap (◌∷◌ x) (reverse-reverse xs)))

poll_order :
    (received : Received) (s : Subscription)
    → let polled = poll_next received s in
      yielded polled.1 ++ backlog polled.0 ≡ backlog s ++ taken received s
poll_order received s = poll_order_of received s (backlog s) refl

-- the items that polls yield, and the subscription that they leave
abbrev pub polls : List Received → Subscription → List Item × Subscription
polls [] s = ([], s)
polls (received ∷ more) s =
    let (s', p) = poll_next received s in
    let (out, last) = polls more s' in (yielded p ++ out, last)

-- the items that they take off the channel
abbrev pub taken_by : List Received → Subscription → List Item
taken_by [] s = []
taken_by (received ∷ more) s = taken received s ++ taken_by more (poll_next received s).0

-- What a subscription has yielded, followed by what it has buffered, is always what it had buffered at
-- first followed by what it has taken off its channel: no item is lost, repeated or out of order.
pub polls_in_order :
    (received : List Received) (s : Subscription)
    → (polls received s).0 ++ backlog (polls received s).1 ≡ backlog s ++ taken_by received s
polls_in_order [] s = sym (append-nil (backlog s))
polls_in_order (received ∷ more) s =
    let (s', p) = poll_next received s in
    append_assoc (yielded p) (polls more s').0 (backlog (polls more s').1)
    ∙ ap (λ l. yielded p ++ l) (polls_in_order more s')
    ∙ sym (append_assoc (yielded p) (backlog s') (taken_by more s'))
    ∙ ap (λ l. l ++ taken_by more s') (poll_order received s)
    ∙ append_assoc (backlog s) (taken received s) (taken_by more s')
