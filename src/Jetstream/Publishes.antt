-- ===== src/Jetstream/Publishes.antt =====
-- watermelon/src/client/jetstream/commands/publish.rs: a message for a stream, the headers that it
-- carries, and the acknowledgement of the server. The wrappers that carry a client along are the client
-- that each call takes.
use watermelon.Prelude.{
  ℕ, ◌==◌, Bool, [], Option, none, some, Bytes, codes, Ordering, if◌then◌else◌, Result, ok, err,
  ◌>>=◌, map_err,
}
use watermelon.Subject.{Subject}
use watermelon.Headers.Name.{HeaderName}
use watermelon.Headers.Name
use watermelon.Headers.Value.{HeaderValueValidateError, from_bytes}
use watermelon.Headers.Value
use watermelon.Headers.Map.{HeaderMap, insert}
use watermelon.Headers.Map
use watermelon.Proto.{ServerMessage}
use watermelon.Client.{Client}
use watermelon.Client.Requests.{ResponseError, no_responders}
use watermelon.Client.Requests
use watermelon.Jetstream.{
  Exchange, JetstreamError, JetstreamPublishError, no_stream_matches, header_value, response_error,
  client_closed, publish_status, json, Response, accept, decimal,
}
use watermelon.Jetstream

pub record PubAck : Type 0 where
  pub stream : Bytes
  pub sequence : ℕ
  pub domain : Option Bytes
  pub duplicate : Option Bool

pub record JetstreamPublish : Type 0 where
  pub subject : Subject
  pub payload : Bytes
  pub stream : Option Bytes
  pub expected_stream : Option Bytes
  pub expected_last_stream_sequence : Option ℕ
  pub expected_last_subject_sequence : Option ℕ
  pub expected_last_message_id : Option Bytes
  pub message_id : Option Bytes
  pub ttl : Option ℕ

-- `JetstreamPublishBuilder::subject`
unfoldable pub builder : Subject → JetstreamPublish
builder subject = record {
  subject = subject;
  payload = [];
  stream = none;
  expected_stream = none;
  expected_last_stream_sequence = none;
  expected_last_subject_sequence = none;
  expected_last_message_id = none;
  message_id = none;
  ttl = none;
}

unfoldable pub stream : Bytes → JetstreamPublish → JetstreamPublish
stream name p = record p { stream = some name }

unfoldable pub expected_stream : Bytes → JetstreamPublish → JetstreamPublish
expected_stream name p = record p { expected_stream = some name }

unfoldable pub expected_last_stream_sequence : ℕ → JetstreamPublish → JetstreamPublish
expected_last_stream_sequence sequence p = record p {
  expected_last_stream_sequence = some sequence;
}

unfoldable pub expected_last_subject_sequence : ℕ → JetstreamPublish → JetstreamPublish
expected_last_subject_sequence sequence p = record p {
  expected_last_subject_sequence = some sequence;
}

unfoldable pub expected_last_message_id : Bytes → JetstreamPublish → JetstreamPublish
expected_last_message_id id p = record p { expected_last_message_id = some id }

unfoldable pub message_id : Bytes → JetstreamPublish → JetstreamPublish
message_id id p = record p { message_id = some id }

unfoldable pub ttl : ℕ → JetstreamPublish → JetstreamPublish
ttl seconds p = record p { ttl = some seconds }

unfoldable pub payload : Bytes → JetstreamPublish → JetstreamPublish
payload bytes p = record p { payload = bytes }

-- `serde_json::to_vec` is an argument.
unfoldable pub payload_json :
    {T J : Type 0} → (T → Result J Bytes) → T → JetstreamPublish → Result J JetstreamPublish
unfolding payload
payload_json to_vec value p = do bytes ← to_vec value; ok (payload bytes p)

-- `Ord` of the header names is an argument.
module _ (cmp : HeaderName → HeaderName → Ordering) where
  -- a header with a text that is checked, if there is one
  unfoldable pub insert_text :
      Bytes → Option Bytes → HeaderMap → Result HeaderValueValidateError HeaderMap
  unfolding insert from_bytes Name.from_dangerous_value
  insert_text name none headers = ok headers
  insert_text name (some text) headers = do
    value ← from_bytes text
    ok (insert cmp (Name.from_dangerous_value name) value headers)

  -- a header with a number, if there is one; a `u64` has at most 20 digits
  unfoldable pub insert_number : Bytes → Option ℕ → HeaderMap → HeaderMap
  unfolding insert decimal Value.from_dangerous_value Name.from_dangerous_value
  insert_number name none headers = headers
  insert_number name (some n) headers =
      insert cmp (Name.from_dangerous_value name) (Value.from_dangerous_value (decimal 19 n))
        headers

  -- `build_headers`, over the fields of the message
  unfoldable pub build_headers : JetstreamPublish → Result HeaderValueValidateError HeaderMap
  unfolding insert_text insert_number Map.new
  build_headers p = do
    streamed ← insert_text (codes "Nats-Stream") p.stream Map.new
    expected ← insert_text (codes "Nats-Expected-Stream") p.expected_stream streamed
    identified ← insert_text (codes "Nats-Expected-Last-Msg-Id") p.expected_last_message_id (
        insert_number (codes "Nats-Expected-Last-Subject-Sequence") p.expected_last_subject_sequence
          (insert_number (codes "Nats-Expected-Last-Sequence") p.expected_last_stream_sequence
            expected))
    named ← insert_text (codes "Nats-Msg-Id") p.message_id identified
    ok (insert_number (codes "Nats-TTL") p.ttl named)

  module _ {J : Type 0} (lossy : Bytes → Bytes)
      (from_slice : Bytes → Result J (Response PubAck)) where
    -- a response that did not come
    unfoldable pub refused : ResponseError → JetstreamError J
    refused no_responders = publish_status no_stream_matches
    refused e = response_error e

    -- what the response says; `lossy` is `String::from_utf8_lossy`
    unfoldable pub acknowledged : ServerMessage → Result (JetstreamError J) PubAck
    unfolding accept
    acknowledged m = elim m.status_code [
      | some status ↦
          if status.code == 409
          then err (publish_status no_stream_matches)
          else err (publish_status (Jetstream.JetstreamPublishError.other (lossy m.base.payload)))
      | none ↦ do r ← map_err json (from_slice m.base.payload); accept from_slice r
    ]

    -- `do_publish`; the request uses the client's own timeout
    unfoldable pub do_publish :
        Exchange → JetstreamPublish → Client → Client × Result (JetstreamError J) PubAck
    unfolding build_headers Requests.builder Requests.headers Requests.payload
        Requests.request_multiplexed refused acknowledged
    do_publish e p c = elim (build_headers p) [
      | err invalid ↦ (c, err (header_value invalid))
      | ok headers ↦
          let request =
            Requests.payload p.payload (Requests.headers headers (Requests.builder p.subject)) in
          let (c', requested) =
            Requests.request_multiplexed e.open_channel e.suffix e.channel request c in
          (
            c',
            do _ ← map_err client_closed requested; m ← map_err refused e.response; acknowledged m,
          )
    ]
