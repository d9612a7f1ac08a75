-- ===== src/Jetstream/Batches/Bounded.antt =====
-- watermelon/src/client/jetstream/commands/consumer_batch.rs: how many messages a batch yields.
use watermelon.Prelude.{
  ℕ, zero, suc, ◌+◌, ◌≤◌, ◌==◌, Bool, true, false, List, [], ◌∷◌, Option, none, some, ok, err, ◌≡◌,
  refl, arith, All,
}
use watermelon.Proto.{ServerMessage}
use watermelon.Client.{Poll, pending, ready}
use watermelon.Client.Subscribed.{Item, Received}
use watermelon.Client.Subscribed
use watermelon.Jetstream.Batches.{
  ConsumerBatch, BatchItem, Status, message, idle, over, unexpected, status, as_status, yielded,
  ended, poll_next, is_terminated,
}

-- polls in order, and what they yield
unfoldable pub polls :
    List (Received × Bool) → ConsumerBatch → ConsumerBatch × List (Poll (Option BatchItem))
unfolding poll_next
polls [] b = (b, [])
polls ((received, elapsed) ∷ ins) b =
    let (b', item) = poll_next received elapsed b in
    let (last, items) = polls ins b' in (last, item ∷ items)

-- whether a poll yields a message, and how many do
unfoldable pub messages : List (Poll (Option BatchItem)) → ℕ
messages [] = 0
messages (ready (some (ok m)) ∷ items) = suc (messages items)
messages (ready (some (err e)) ∷ items) = messages items
messages (ready none ∷ items) = messages items
messages (pending ∷ items) = messages items

-- a step yields no more than it takes off
abbrev Paid : ℕ → ConsumerBatch × Poll (Option BatchItem) → Type 0
Paid n (b, item) = messages (item ∷ []) + b.pending_msgs ≤ n

as_status-Paid :
    (s : Status) (m : ServerMessage) (n : ℕ) (b : ConsumerBatch)
    → b.pending_msgs ≡ suc n
    → Paid (suc n) (as_status s m b)
unfolding as_status messages ended
as_status-Paid message m n b h = omega (arith, h)
as_status-Paid idle m n b h = omega (arith, h)
as_status-Paid over m n b h = omega (arith, h)
as_status-Paid unexpected m n b h = omega (arith, h)

yielded-Paid :
    (elapsed : Bool) (item : Poll (Option Item)) (n : ℕ) (b : ConsumerBatch)
    → b.pending_msgs ≡ suc n
    → Paid (suc n) (yielded elapsed item b)
unfolding yielded messages ended
yielded-Paid false pending n b h = omega (arith, h)
yielded-Paid true pending n b h = omega (arith, h)
yielded-Paid elapsed (ready none) n b h = omega (arith, h)
yielded-Paid elapsed (ready (some (err e))) n b h = omega (arith, h)
yielded-Paid elapsed (ready (some (ok m))) n b h = as_status-Paid (status m) m n b h

poll_next-Paid :
    (received : Received) (elapsed : Bool) (n : ℕ) (b : ConsumerBatch)
    → b.pending_msgs ≡ n
    → Paid n (poll_next received elapsed b)
unfolding poll_next messages
poll_next-Paid received elapsed zero b h =
    let done : (b.pending_msgs == 0) ≡ true = ground (arith, h) in rw done (omega (arith, h))
poll_next-Paid received elapsed (suc n) b h =
    let more : (b.pending_msgs == 0) ≡ false = ground (arith, h) in
    let (s, item) = Subscribed.poll_next received b.subscription in
    rw more (yielded-Paid elapsed item n (record b { subscription = s }) h)

messages_cons :
    (item : Poll (Option BatchItem)) (items : List (Poll (Option BatchItem)))
    → messages (item ∷ items) ≡ messages (item ∷ []) + messages items
unfolding messages
messages_cons (ready (some (ok m))) items = omega arith
messages_cons (ready (some (err e))) items = omega arith
messages_cons (ready none) items = omega arith
messages_cons pending items = omega arith

nothing : (n : ℕ) → messages [] + n ≤ n
unfolding messages
nothing n = omega arith

poll_terminated :
    (received : Received) (elapsed : Bool) (b : ConsumerBatch)
    → is_terminated b ≡ true
    → poll_next received elapsed b ≡ (b, ready none)
unfolding is_terminated poll_next
poll_terminated received elapsed b t = rw t refl

-- Whatever its subscription receives and its timer does, a batch yields no more messages than it has
-- pending, less those that are pending at the end; once it is terminated it stays as it is, and every
-- poll of it ends the stream.
pub polls-messages :
    (ins : List (Received × Bool)) (b : ConsumerBatch)
    → (messages (polls ins b).1 + (polls ins b).0.pending_msgs ≤ b.pending_msgs)
      × (is_terminated b ≡ true
          → ((polls ins b).0 ≡ b) × All (λ item. item ≡ ready none) (polls ins b).1)
unfolding polls is_terminated
polls-messages [] b = (nothing b.pending_msgs, λ t. (refl, tt))
polls-messages ((received, elapsed) ∷ ins) b =
    let (b', item) = poll_next received elapsed b in
    let (bounded, fused) = polls-messages ins b' in
    (
      omega (
        arith,
        messages_cons item (polls ins b').1,
        poll_next-Paid received elapsed b.pending_msgs b refl,
        bounded,
      ),
      λ t.
          let (kept, all) = (polls-messages ins b).1 t in
          rw (poll_terminated received elapsed b t) (kept, (refl, all)),
    )
