-- ===== src/Jetstream/Messages/Acknowledged.antt =====
-- watermelon/src/client/jetstream/commands/message.rs: what a message publishes over its life.
use watermelon.Prelude.{
  ℕ, Bool, true, false, List, [], ◌∷◌, ◌++◌, none, some, Bytes, codes, map, ok, err, ◌≡◌, refl,
  arith, ap, ◌∙◌, sym, append_assoc, append-nil, All, ◌≢◌, if◌then◌else◌,
}
use watermelon.Subject.{Subject}
use watermelon.Proto.{ServerMessage}
use watermelon.Handler.{HandlerCommand}
use watermelon.Handler
use watermelon.Client.{Client, ClientClosedError, push, enqueue_command}
use watermelon.Client
use watermelon.Client.Publishes.{publish, builder, payload, into_message_base}
use watermelon.Jetstream.{decimal}
use watermelon.Jetstream.Messages.{
  JetstreamMessage, Acked, client_closed, no_reply_subject, already_acknowledged, new,
  set_reply_subject, acknowledge, take_reply_subject, ensure_not_acked, take_and_publish,
  take_client, published, mark_acknowledged,
}
use watermelon.Jetstream.Messages

-- the calls of a message's methods
pub data Ack : Type 0 where
  ack nak term progress : Ack
  nak_with_delay : ℕ → Ack
  term_with_reason : Bytes → Ack

unfoldable pub apply : Ack → Bool → JetstreamMessage → Client → JetstreamMessage × Client × Acked
unfolding Messages.ack Messages.nak Messages.nak_with_delay Messages.term Messages.term_with_reason
    Messages.progress
apply ack o m c = Messages.ack o m c
apply nak o m c = Messages.nak o m c
apply term o m c = Messages.term o m c
apply (nak_with_delay delay) o m c = Messages.nak_with_delay delay o m c
apply (term_with_reason reason) o m c = Messages.term_with_reason reason o m c
apply progress o m c = let (c', acked) = Messages.progress o m c in (m, c', acked)

-- calls in order, each with whether the channel is open; their results, in order
unfoldable pub run :
    List (Ack × Bool) → JetstreamMessage → Client → JetstreamMessage × Client × List Acked
unfolding apply
run [] m c = (m, c, [])
run ((a, o) ∷ calls) m c =
    let (m', c', acked) = apply a o m c in
    let (m'', c'', rest) = run calls m' c' in (m'', c'', acked ∷ rest)

-- what a call has to say, and whether it is the last word
unfoldable pub text : Ack → Bytes
unfolding decimal
text ack = codes "+ACK"
text nak = codes "-NAK"
text term = codes "+TERM"
text progress = codes "+WPI"
text (nak_with_delay delay) = codes "-NAK {\"delay\": " ++ decimal 38 delay ++ codes "}"
text (term_with_reason reason) = codes "+TERM " ++ reason

unfoldable pub is_progress : Ack → Bool
is_progress progress = true
is_progress _ = false

-- what the server hears: calls find the channel open or not, and after the first that is not
-- `progress` there is nothing more
unfoldable pub heard : List (Ack × Bool) → List Bytes
unfolding text is_progress
heard [] = []
heard ((a, o) ∷ calls) =
    let rest = if is_progress a then heard calls else [] in if o then text a ∷ rest else rest

-- the command that publishes a text to the reply subject
unfoldable pub reply_with : Subject → Bytes → HandlerCommand
unfolding into_message_base payload builder
reply_with reply bytes =
    Handler.HandlerCommand.publish (into_message_base (payload bytes (builder reply)))

-- what is enqueued behind what was
unfoldable pub enqueue_all : List HandlerCommand → Client → Client
enqueue_all commands c = record c { commands = c.commands ++ commands }

-- a message whose reply subject is gone
apply_spent :
    (a : Ack) (o : Bool) (m : JetstreamMessage) (c : Client)
    → m.message.base.reply_subject ≡ none
    → apply a o m c ≡ (m, c, err no_reply_subject)
unfolding apply acknowledge take_reply_subject
apply_spent ack o m c spent = rw spent refl
apply_spent nak o m c spent = rw spent refl
apply_spent term o m c spent = rw spent refl
apply_spent (nak_with_delay delay) o m c spent = rw spent refl
apply_spent (term_with_reason reason) o m c spent = rw spent refl
apply_spent progress o m c spent = rw spent refl

abbrev spent : ServerMessage → JetstreamMessage
spent m = record (set_reply_subject none (new m)) { client = none }

-- the commands of one call
abbrev enqueued : Bool → HandlerCommand → List HandlerCommand
enqueued true command = command ∷ []
enqueued false command = []

-- what is left behind a call
abbrev Left : Bool → ServerMessage → JetstreamMessage → Type 0
Left true m m' = m' ≡ new m
Left false m m' = m'.message.base.reply_subject ≡ none

enqueue_all-nil : (c : Client) → enqueue_all [] c ≡ c
unfolding enqueue_all
enqueue_all-nil c = rw append-nil refl

enqueue_all-append :
    (xs ys : List HandlerCommand) (c : Client)
    → enqueue_all ys (enqueue_all xs c) ≡ enqueue_all (xs ++ ys) c
unfolding enqueue_all
enqueue_all-append xs ys c = rw append_assoc refl

-- the first call to a new message
abbrev First : Ack → Subject → Bool → ServerMessage → Client → Type 0
First a reply o m c =
    (m' : JetstreamMessage) × (acked : Acked) × (apply a o (new m) c
      ≡ (m', enqueue_all (enqueued o (reply_with reply (text a))) c, acked))
    × (acked ≢ err already_acknowledged)
    × Left (is_progress a) m m'

acknowledge_first :
    (bytes : Bytes) (reply : Subject) (o : Bool) (m : ServerMessage) (c : Client)
    → m.base.reply_subject ≡ some reply
    → (m' : JetstreamMessage) × (acked : Acked) × (acknowledge bytes o (new m) c
        ≡ (m', enqueue_all (enqueued o (reply_with reply bytes)) c, acked))
      × (acked ≢ err already_acknowledged)
      × (m'.message.base.reply_subject ≡ none)
unfolding new acknowledge take_reply_subject set_reply_subject ensure_not_acked take_and_publish
    take_client published mark_acknowledged enqueue_all reply_with publish enqueue_command push
acknowledge_first bytes reply true m c h =
    (mark_acknowledged (spent m), ok tt, ground (arith, h), λ e. cc, refl)
acknowledge_first bytes reply false m c h =
    let refused : Acked = err (client_closed Client.ClientClosedError.client_closed) in
    let done : acknowledge bytes false (new m) c ≡ (spent m, c, refused) = ground (arith, h) in
    (
      spent m,
      refused,
      done ∙ ap (λ c'. (spent m, c', refused)) (sym (enqueue_all-nil c)),
      λ e. cc,
      refl,
    )

progress-First :
    (reply : Subject) (o : Bool) (m : ServerMessage) (c : Client)
    → m.base.reply_subject ≡ some reply
    → First progress reply o m c
unfolding apply Messages.progress new enqueue_all reply_with publish enqueue_command push text
    is_progress
progress-First reply true m c h = (new m, ok tt, rw h refl, λ e. cc, refl)
progress-First reply false m c h =
    let refused : Acked = err (client_closed Client.ClientClosedError.client_closed) in
    let done : apply progress false (new m) c ≡ (new m, c, refused) = rw h refl in
    (
      new m,
      refused,
      done ∙ ap (λ c'. (new m, c', refused)) (sym (enqueue_all-nil c)),
      λ e. cc,
      refl,
    )

apply-First :
    (a : Ack) (reply : Subject) (o : Bool) (m : ServerMessage) (c : Client)
    → m.base.reply_subject ≡ some reply
    → First a reply o m c
unfolding apply text is_progress
apply-First ack reply o m c h = acknowledge_first (text ack) reply o m c h
apply-First nak reply o m c h = acknowledge_first (text nak) reply o m c h
apply-First term reply o m c h = acknowledge_first (text term) reply o m c h
apply-First (nak_with_delay delay) reply o m c h =
    acknowledge_first (text (nak_with_delay delay)) reply o m c h
apply-First (term_with_reason reason) reply o m c h =
    acknowledge_first (text (term_with_reason reason)) reply o m c h
apply-First progress reply o m c h = progress-First reply o m c h

-- a result is not that the message was acknowledged
abbrev NeverSaid : List Acked → Type 0
NeverSaid = All (λ acked. acked ≢ err already_acknowledged)

run_spent :
    (calls : List (Ack × Bool)) (m : JetstreamMessage) (c : Client)
    → m.message.base.reply_subject ≡ none
    → ((run calls m c).1 ≡ c) × NeverSaid (run calls m c).2
unfolding run
run_spent [] m c h = (refl, tt)
run_spent ((a, o) ∷ calls) m c h =
    rw (apply_spent a o m c h)
      (let (kept, never) = run_spent calls m c h in (kept, ((λ e. cc), never)))

abbrev Heard : List (Ack × Bool) → List Bytes → Subject → JetstreamMessage → Client → Type 0
Heard calls texts reply m c =
    ((run calls m c).1 ≡ enqueue_all (map (reply_with reply) texts) c) × NeverSaid (run calls m c).2

run_after :
    (b : Bool) (calls : List (Ack × Bool)) (m : ServerMessage) (m' : JetstreamMessage)
    (reply : Subject) (c : Client)
    → Left b m m'
    → Heard calls (heard calls) reply (new m) c
    → Heard calls (if b then heard calls else []) reply m' c
run_after true calls m m' reply c left later = rw left later
run_after false calls m m' reply c left later =
    let (kept, never) = run_spent calls m' c left in (kept ∙ sym (enqueue_all-nil c), never)

heard_first :
    (o : Bool) (t : Bytes) (texts : List Bytes) (reply : Subject) (c : Client)
    → enqueue_all (map (reply_with reply) texts) (enqueue_all (enqueued o (reply_with reply t)) c)
      ≡ enqueue_all (map (reply_with reply) (if o then t ∷ texts else texts)) c
heard_first true t texts reply c =
    enqueue_all-append (reply_with reply t ∷ []) (map (reply_with reply) texts) c
heard_first false t texts reply c = enqueue_all-append [] (map (reply_with reply) texts) c

-- Over any calls of the methods of a message with a reply subject, the client enqueues for it, in
-- order, what `heard` says: the `progress` calls that find the channel open up to the first
-- acknowledgement, that acknowledgement if the channel is open, and nothing after. No call is told
-- that the message is already acknowledged.
pub run-new-heard :
    (calls : List (Ack × Bool)) (m : ServerMessage) (reply : Subject) (c : Client)
    → m.base.reply_subject ≡ some reply
    → ((run calls (new m) c).1 ≡ enqueue_all (map (reply_with reply) (heard calls)) c)
      × All (λ acked. acked ≢ err already_acknowledged) (run calls (new m) c).2
unfolding run heard
run-new-heard [] m reply c h = (sym (enqueue_all-nil c), tt)
run-new-heard ((a, o) ∷ calls) m reply c h =
    let (m', acked, first, never, left) = apply-First a reply o m c h in
    let c' = enqueue_all (enqueued o (reply_with reply (text a))) c in
    let (kept, later) =
      run_after (is_progress a) calls m m' reply c' left (run-new-heard calls m reply c' h) in
    rw first (
      kept ∙ heard_first o (text a) (if is_progress a then heard calls else []) reply c,
      (never, later),
    )
