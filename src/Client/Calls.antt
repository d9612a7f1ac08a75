-- ===== src/Client/Calls.antt =====
-- Every call of a client that sends a command, and the ids of the subscriptions that they make.
use watermelon.Prelude.{
  ℕ, zero, suc, ◌+◌, ◌-◌, ◌≤◌, ◌==◌, ◌%◌, ◌^◌, Bool, true, false, List, [], ◌∷◌, ◌++◌, Option, none,
  some, Bytes, ◌≡◌, refl, sym, ap, ◌∙◌, arith, append-nil, Bool-cases, Option-cases, inl, inr,
}
use watermelon.Wire.Uint.{max_u64}
use watermelon.Subject.{Subject}
use watermelon.QueueGroup.{QueueGroup}
use watermelon.SubscriptionId.{SubscriptionId}
use watermelon.Headers.Map.{HeaderMap}
use watermelon.Proto.{MessageBase}
use watermelon.QuickInfo.{RawQuickInfo}
use watermelon.Handler.{
  HandlerCommand, Sent, publish, request_multiplexed, unsubscribe_multiplexed, subscribe,
  unsubscribe,
}
use watermelon.Client.{
  Client, new, push, enqueue_command, try_enqueue_command, do_subscribe, permitted, try_subscribe,
  multiplexed_request, try_multiplexed_request, do_multiplexed_request, lazily, lazy_unsubscribe,
  lazy_unsubscribe_multiplexed,
}
use watermelon.Client

-- Each call with what the channel answers.
pub data Call : Type 0 where
  subscribes : Bool → ℕ → Subject → Option QueueGroup → Call
  tries_to_subscribe : Sent → ℕ → Subject → Option QueueGroup → Call
  requests : Bool → ℕ → ℕ → Subject → HeaderMap → Bytes → Call
  tries_to_request : Sent → ℕ → ℕ → Subject → HeaderMap → Bytes → Call
  publishes : Bool → MessageBase → Call
  tries_to_publish : Sent → MessageBase → Call
  unsubscribes : Bool → SubscriptionId → Option ℕ → Call
  unsubscribes_lazily : Sent → SubscriptionId → Option ℕ → Call
  drops_request : Sent → Subject → Call

unfoldable pub state {ℓ} : {A : Type ℓ} → Option (Client × A) → Option Client
state none = none
state (some (c, a)) = some c

-- the state that the call leaves
unfoldable pub call : Call → Client → Option Client
unfolding state
call (subscribes open_channel channel subject group) c =
    state (Client.subscribe open_channel channel subject group c)
call (tries_to_subscribe outcome channel subject group) c =
    state (try_subscribe outcome channel subject group c)
call (requests open_channel suffix channel subject headers payload) c =
    some (multiplexed_request open_channel suffix channel subject headers payload c).0
call (tries_to_request outcome suffix channel subject headers payload) c =
    some (try_multiplexed_request outcome suffix channel subject headers payload c).0
call (publishes open_channel m) c = some (enqueue_command open_channel (publish m) c).0
call (tries_to_publish outcome m) c = some (try_enqueue_command outcome (publish m) c).0
call (unsubscribes open_channel id max) c = some (Client.unsubscribe open_channel id max c).0
call (unsubscribes_lazily outcome id max) c = some (lazy_unsubscribe outcome id max c)
call (drops_request outcome reply_subject) c =
    some (lazy_unsubscribe_multiplexed outcome reply_subject c)

unfoldable pub calls : List Call → Client → Option Client
unfolding call
calls [] c = some c
calls (x ∷ xs) c = elim (call x c) [ none ↦ none | some c' ↦ calls xs c' ]

-- the id that a command subscribes
abbrev pub id_of : HandlerCommand → List ℕ
id_of (subscribe id subject group messages) = id.id ∷ []
id_of _ = []

abbrev pub subscribed_ids : List HandlerCommand → List ℕ
subscribed_ids [] = []
subscribed_ids (command ∷ commands) = id_of command ++ subscribed_ids commands

-- `count` numbers from `start` on
abbrev pub count_up : ℕ → ℕ → List ℕ
count_up start zero = []
count_up start (suc count) = start ∷ count_up (start + 1) count

subscribed_ids-append :
    (commands : List HandlerCommand) (command : HandlerCommand)
    → subscribed_ids (commands ++ command ∷ []) ≡ subscribed_ids commands ++ id_of command
subscribed_ids-append [] command = append-nil (id_of command)
subscribed_ids-append (subscribe id s g m ∷ commands) command =
    ap (◌∷◌ id.id) (subscribed_ids-append commands command)
subscribed_ids-append (publish m ∷ commands) command = subscribed_ids-append commands command
subscribed_ids-append (request_multiplexed s r h p c ∷ commands) command =
    subscribed_ids-append commands command
subscribed_ids-append (unsubscribe_multiplexed r ∷ commands) command =
    subscribed_ids-append commands command
subscribed_ids-append (unsubscribe id max ∷ commands) command =
    subscribed_ids-append commands command

count_up-suc :
    (start count : ℕ) → count_up start (suc count) ≡ count_up start count ++ (start + count) ∷ []
count_up-suc start zero = ap (λ n. n ∷ []) (omega arith)
count_up-suc start (suc count) =
    ap (◌∷◌ start) (
      count_up-suc (start + 1) count ∙ ap (λ n. count_up (start + 1) count ++ n ∷ []) (omega arith))

-- The ids handed out are the numbers behind that of the multiplexed subscription, each once.
pub record HasIds (c : Client) : Type 0 where
  pub first_id : 2 ≤ c.next_subscription_id
  pub last_id : c.next_subscription_id ≤ max_u64
  pub ids : subscribed_ids c.commands ≡ count_up 2 (c.next_subscription_id - 2)

push-HasIds :
    (command : HandlerCommand) (c : Client)
    → id_of command ≡ []
    → HasIds c
    → HasIds (push command c)
unfolding push
push-HasIds command c other h = record {
  first_id = h.first_id;
  last_id = h.last_id;
  ids =
      subscribed_ids-append c.commands command
      ∙ ap (λ l. subscribed_ids c.commands ++ l) other
      ∙ append-nil (subscribed_ids c.commands)
      ∙ h.ids;
}

enqueue-HasIds :
    (open_channel : Bool) (command : HandlerCommand) (c : Client)
    → id_of command ≡ []
    → HasIds c
    → HasIds (enqueue_command open_channel command c).0
unfolding enqueue_command
enqueue-HasIds true command c other h = push-HasIds command c other h
enqueue-HasIds false command c other h = h

try_enqueue-HasIds :
    (outcome : Sent) (command : HandlerCommand) (c : Client)
    → id_of command ≡ []
    → HasIds c
    → HasIds (try_enqueue_command outcome command c).0
unfolding try_enqueue_command
try_enqueue-HasIds Sent.sent command c other h = push-HasIds command c other h
try_enqueue-HasIds Sent.full command c other h = h
try_enqueue-HasIds Sent.closed command c other h = h

lazily-HasIds :
    (outcome : Sent) (command : HandlerCommand) (c : Client)
    → id_of command ≡ []
    → HasIds c
    → HasIds (lazily outcome command c)
unfolding lazily
lazily-HasIds Sent.sent command c other h = try_enqueue-HasIds Sent.sent command c other h
lazily-HasIds Sent.full command c other h = record {
  first_id = h.first_id;
  last_id = h.last_id;
  ids = h.ids;
}
lazily-HasIds Sent.closed command c other h = record {
  first_id = h.first_id;
  last_id = h.last_id;
  ids = h.ids;
}

abbrev Keeps : Option Client → Type 0
Keeps none = Unit
Keeps (some c) = HasIds c

do_subscribe-HasIds :
    (channel : ℕ) (subject : Subject) (group : Option QueueGroup) (c : Client)
    → HasIds c
    → Keeps (state (do_subscribe channel subject group c))
unfolding do_subscribe push state
do_subscribe-HasIds channel subject group c h =
    elim (Bool-cases (c.next_subscription_id == max_u64)) [
      | inl last ↦ rw last tt
      | inr more ↦
          let next : (c.next_subscription_id + 1) % 2 ^ 64 ≡ c.next_subscription_id + 1 =
            ground (arith, h.last_id) in
          let command : HandlerCommand =
            subscribe (record { id = c.next_subscription_id }) subject group channel in
          let one_more : suc (c.next_subscription_id - 2) ≡ c.next_subscription_id + 1 - 2 =
            omega (arith, h.first_id) in
          rw (more, next)
            (record {
              first_id = omega (arith, h.first_id);
              last_id = ground (arith, h.last_id);
              ids =
                  subscribed_ids-append c.commands command
                  ∙ ap (λ l. l ++ c.next_subscription_id ∷ []) h.ids
                  ∙ ap (λ n. count_up 2 (c.next_subscription_id - 2) ++ n ∷ [])
                      (omega (arith, h.first_id))
                  ∙ sym (count_up-suc 2 (c.next_subscription_id - 2))
                  ∙ ap (count_up 2) one_more;
            })
    ]

permitted-HasIds :
    (E : Type 0) {A : Type 0} (r : Option (Client × A))
    → Keeps (state r)
    → Keeps (state (permitted {E = E} r))
unfolding permitted state
permitted-HasIds E none h = h
permitted-HasIds E (some (c, a)) h = h

call-HasIds : (x : Call) (c : Client) → HasIds c → Keeps (call x c)
unfolding call
call-HasIds (subscribes true channel subject group) c h =
    unfold Client.subscribe in
    permitted-HasIds _ (do_subscribe channel subject group c)
      (do_subscribe-HasIds channel subject group c h)
call-HasIds (subscribes false channel subject group) c h = unfold Client.subscribe in h
call-HasIds (tries_to_subscribe Sent.sent channel subject group) c h =
    unfold try_subscribe in
    permitted-HasIds _ (do_subscribe channel subject group c)
      (do_subscribe-HasIds channel subject group c h)
call-HasIds (tries_to_subscribe Sent.full channel subject group) c h = unfold try_subscribe in h
call-HasIds (tries_to_subscribe Sent.closed channel subject group) c h = unfold try_subscribe in h
call-HasIds (requests true suffix channel s headers p) c h =
    unfold multiplexed_request do_multiplexed_request in push-HasIds _ c refl h
call-HasIds (requests false suffix channel s headers p) c h = unfold multiplexed_request in h
call-HasIds (tries_to_request Sent.sent suffix channel s headers p) c h =
    unfold try_multiplexed_request do_multiplexed_request in push-HasIds _ c refl h
call-HasIds (tries_to_request Sent.full suffix channel s headers p) c h =
    unfold try_multiplexed_request in h
call-HasIds (tries_to_request Sent.closed suffix channel s headers p) c h =
    unfold try_multiplexed_request in h
call-HasIds (publishes open_channel m) c h = enqueue-HasIds open_channel (publish m) c refl h
call-HasIds (tries_to_publish outcome m) c h = try_enqueue-HasIds outcome (publish m) c refl h
call-HasIds (unsubscribes open_channel id max) c h =
    unfold Client.unsubscribe in enqueue-HasIds open_channel (unsubscribe id max) c refl h
call-HasIds (unsubscribes_lazily outcome id max) c h =
    unfold lazy_unsubscribe in lazily-HasIds outcome (unsubscribe id max) c refl h
call-HasIds (drops_request outcome reply_subject) c h =
    unfold lazy_unsubscribe_multiplexed in
    lazily-HasIds outcome (unsubscribe_multiplexed reply_subject) c refl h

calls-HasIds :
    (xs : List Call) (c : Client) {c' : Client} → HasIds c → calls xs c ≡ some c' → HasIds c'
unfolding calls
calls-HasIds [] c {c'} h e = let same : c ≡ c' = cc in rw (← same) h
calls-HasIds (x ∷ xs) c {c'} h e = elim (Option-cases (call x c)) [
  | inl none_left ↦ absurd (let stuck : none ≡ some c' = rw (none_left, calls) at e in cc)
  | inr (next, found) ↦
      calls-HasIds xs next (rw found at (call-HasIds x c h)) (rw (found, calls) at e)
]

-- Whatever calls a new client makes, the ids of the subscriptions in its commands are the numbers
-- behind that of the multiplexed subscription, in order: none is used twice, and none is 2 ^ 64 - 1.
pub calls-subscribed_ids :
    (xs : List Call) (quick_info : RawQuickInfo) (prefix inbox : Subject) (timeout : ℕ) {c : Client}
    → calls xs (new quick_info prefix inbox timeout) ≡ some c
    → (subscribed_ids c.commands ≡ count_up 2 (c.next_subscription_id - 2))
      × (c.next_subscription_id ≤ max_u64)
unfolding new
calls-subscribed_ids xs quick_info prefix inbox timeout e =
    let h =
      calls-HasIds xs (new quick_info prefix inbox timeout)
        (record { first_id = omega arith; last_id = omega arith; ids = refl }) e in
    (h.ids, h.last_id)
