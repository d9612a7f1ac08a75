-- ===== src/Jetstream/Messages.antt =====
-- watermelon/src/client/jetstream/commands/message.rs: a message and its acknowledgements. The client's
-- handle is a token, since the client that it leads to is passed along; the flag says whether its
-- channel is open.
pub mod Acknowledged
use watermelon.Prelude.{
  ℕ, Bool, true, false, Option, none, some, Bytes, codes, ◌++◌, Result, ok, err, if◌then◌else◌,
}
use watermelon.Subject.{Subject}
use watermelon.Proto.{ServerMessage}
use watermelon.Client.{Client, ClientClosedError}
use watermelon.Client.Publishes.{publish, builder, payload}
use watermelon.Jetstream.{decimal}

pub data JetstreamMessageAckError : Type 0 where
  client_closed : ClientClosedError → JetstreamMessageAckError
  no_reply_subject already_acknowledged : JetstreamMessageAckError

pub record JetstreamMessage : Type 0 where
  pub message : ServerMessage
  pub client : Option (Unit {0})
  pub acknowledged : Bool

abbrev pub Acked : Type 0
Acked = Result JetstreamMessageAckError (Unit {0})

unfoldable pub new : ServerMessage → JetstreamMessage
new message = record { message = message; client = some tt; acknowledged = false }

unfoldable pub set_reply_subject : Option Subject → JetstreamMessage → JetstreamMessage
set_reply_subject reply m = record m {
  message = record m.message { base = record m.message.base { reply_subject = reply } };
}

unfoldable pub take_reply_subject :
    JetstreamMessage → JetstreamMessage × Result JetstreamMessageAckError Subject
unfolding set_reply_subject
take_reply_subject m = elim m.message.base.reply_subject [
  | none ↦ (m, err no_reply_subject)
  | some reply ↦ (set_reply_subject none m, ok reply)
]

unfoldable pub take_client : JetstreamMessage → JetstreamMessage × Acked
take_client m = elim m.client [
  | none ↦ (m, err no_reply_subject)
  | some client ↦ (record m { client = none }, ok tt)
]

unfoldable pub ensure_not_acked : JetstreamMessage → Acked
ensure_not_acked m = if m.acknowledged then err already_acknowledged else ok tt

unfoldable pub mark_acknowledged : JetstreamMessage → JetstreamMessage
mark_acknowledged m = record m { acknowledged = true }

unfoldable pub is_acked : JetstreamMessage → Bool
is_acked m = m.acknowledged

-- behind the publish
unfoldable pub published :
    JetstreamMessage
    → Client × Result ClientClosedError (Unit {0})
    → JetstreamMessage × Client × Acked
unfolding mark_acknowledged
published m (c, ok u) = (mark_acknowledged m, c, ok tt)
published m (c, err e) = (m, c, err (client_closed e))

-- the client is taken, and the payload published
unfoldable pub take_and_publish :
    Bool → Subject → Bytes → JetstreamMessage → Client → JetstreamMessage × Client × Acked
unfolding take_client published publish builder payload
take_and_publish open_channel reply bytes m c =
    let (m', taken) = take_client m in
    let done = published m' (publish open_channel (payload bytes (builder reply)) c) in
    elim taken [ err e ↦ (m', c, err e) | ok u ↦ done ]

-- what the terminal acknowledgements have in common
unfoldable pub acknowledge :
    Bytes → Bool → JetstreamMessage → Client → JetstreamMessage × Client × Acked
unfolding take_reply_subject ensure_not_acked take_and_publish
acknowledge bytes open_channel m c =
    let (m', taken) = take_reply_subject m in
    elim taken [
      | err e ↦ (m', c, err e)
      | ok reply ↦ elim (ensure_not_acked m') [
        | err e ↦ (m', c, err e)
        | ok u ↦ take_and_publish open_channel reply bytes m' c
      ]
    ]

unfoldable pub ack : Bool → JetstreamMessage → Client → JetstreamMessage × Client × Acked
unfolding acknowledge
ack = acknowledge (codes "+ACK")

unfoldable pub nak : Bool → JetstreamMessage → Client → JetstreamMessage × Client × Acked
unfolding acknowledge
nak = acknowledge (codes "-NAK")

-- the delay in nanoseconds, a `u128`
unfoldable pub nak_with_delay :
    ℕ → Bool → JetstreamMessage → Client → JetstreamMessage × Client × Acked
unfolding acknowledge decimal
nak_with_delay delay = acknowledge (codes "-NAK {\"delay\": " ++ decimal 38 delay ++ codes "}")

unfoldable pub term : Bool → JetstreamMessage → Client → JetstreamMessage × Client × Acked
unfolding acknowledge
term = acknowledge (codes "+TERM")

unfoldable pub term_with_reason :
    Bytes → Bool → JetstreamMessage → Client → JetstreamMessage × Client × Acked
unfolding acknowledge
term_with_reason reason = acknowledge (codes "+TERM " ++ reason)

-- `progress`, which takes nothing
unfoldable pub progress : Bool → JetstreamMessage → Client → Client × Acked
unfolding publish builder payload
progress open_channel m c = elim m.message.base.reply_subject [
  | none ↦ (c, err no_reply_subject)
  | some reply ↦ elim m.client [
    | none ↦ (c, err no_reply_subject)
    | some client ↦
        let (c', sent) = publish open_channel (payload (codes "+WPI") (builder reply)) c in
        elim sent [ ok u ↦ (c', ok tt) | err e ↦ (c', err (client_closed e)) ]
  ]
]
