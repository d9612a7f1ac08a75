-- ===== src/Client/Publishes.antt =====
-- watermelon/src/client/commands/publish.rs: a message under construction, and how it is sent. The
-- wrappers that carry a client along are the client that each call takes.
use watermelon.Prelude.{ℕ, Bool, [], Option, none, Bytes, Ordering, Result, ok, err}
use watermelon.Subject.{Subject}
use watermelon.Headers.Name.{HeaderName}
use watermelon.Headers.Value.{HeaderValue}
use watermelon.Headers.Map.{HeaderMap}
use watermelon.Headers.Map
use watermelon.Proto.{MessageBase}
use watermelon.Handler.{HandlerCommand, Sent}
use watermelon.Handler
use watermelon.Client.{
  Client, ClientClosedError, TryCommandError, enqueue_command, try_enqueue_command,
}

pub record Publish : Type 0 where
  pub subject : Subject
  pub reply_subject : Option Subject
  pub headers : HeaderMap
  pub payload : Bytes

-- `Request` of commands/request.rs
pub record Request : Type 0 where
  pub publish : Publish
  pub response_timeout : Option ℕ

-- `PublishBuilder::subject`
unfoldable pub builder : Subject → Publish
unfolding Map.new
builder subject = record {
  subject = subject;
  reply_subject = none;
  headers = Map.new;
  payload = [];
}

unfoldable pub reply_subject : Option Subject → Publish → Publish
reply_subject r p = record p { reply_subject = r }

-- `Ord` of the names, which is that of the crate unicase
unfoldable pub header :
    (HeaderName → HeaderName → Ordering) → HeaderName → HeaderValue → Publish → Publish
unfolding Map.insert
header cmp name value p = record p { headers = Map.insert cmp name value p.headers }

unfoldable pub headers : HeaderMap → Publish → Publish
headers map p = record p { headers = map }

unfoldable pub payload : Bytes → Publish → Publish
payload bytes p = record p { payload = bytes }

-- `serde_json::to_vec` is an argument.
unfoldable pub payload_json : {T E : Type 0} → (T → Result E Bytes) → T → Publish → Result E Publish
unfolding payload
payload_json to_vec value p = elim (to_vec value) [
  | ok bytes ↦ ok (payload bytes p)
  | err e ↦ err e
]

unfoldable pub into_request : Publish → Request
into_request p = record { publish = p; response_timeout = none }

unfoldable pub into_message_base : Publish → MessageBase
into_message_base p = record {
  subject = p.subject;
  reply_subject = p.reply_subject;
  headers = p.headers;
  payload = p.payload;
}

unfoldable pub try_publish : Sent → Publish → Client → Client × Result TryCommandError (Unit {0})
unfolding try_enqueue_command into_message_base
try_publish outcome p =
    try_enqueue_command outcome (Handler.HandlerCommand.publish (into_message_base p))

unfoldable pub publish : Bool → Publish → Client → Client × Result ClientClosedError (Unit {0})
unfolding enqueue_command into_message_base
publish open_channel p =
    enqueue_command open_channel (Handler.HandlerCommand.publish (into_message_base p))
