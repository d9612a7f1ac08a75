-- ===== src/Jetstream.antt =====
-- watermelon/src/client/jetstream/mod.rs: the JetStream client and the calls of its API. The core client
-- that it holds is the one that each call takes. The future of a response is resolved by an argument,
-- and `serde_json` is an argument too; `J` is its error.
pub mod Consumers
pub mod Listings
pub mod Messages
pub mod Batches
pub mod Publishes
use watermelon.Prelude.{
  ℕ, zero, suc, ◌+◌, ◌/◌, ◌%◌, ◌==◌, Bool, List, [], ◌∷◌, ◌++◌, Option, none, some, Bytes, codes,
  ltb, if◌then◌else◌, Result, ok, err, ◌>>=◌, map_err,
}
use watermelon.Subject.{Subject, SubjectValidateError, try_from, from_dangerous_value}
use watermelon.StatusCode.{StatusCode}
use watermelon.Headers.Value.{HeaderValueValidateError}
use watermelon.Proto.{ServerMessage}
use watermelon.Client.{Client, ClientClosedError}
use watermelon.Client.Publishes.{Request}
use watermelon.Client.Requests.{ResponseError, request_multiplexed}
use watermelon.Client.Requests

-- `request_timeout` is in seconds.
pub record JetstreamClient : Type 0 where
  pub prefix : Subject
  pub request_timeout : ℕ

pub record JetstreamErrorCode : Type 0 where
  pub code : ℕ

pub record JetstreamApiError : Type 0 where
  pub status : StatusCode
  pub code : JetstreamErrorCode
  pub description : Bytes

pub data JetstreamPublishError : Type 0 where
  jetstream_not_enabled no_stream_matches stream_full messages_discarded : JetstreamPublishError
  other : Bytes → JetstreamPublishError

pub data JetstreamError (J : Type 0) : Type 0 where
  subject : SubjectValidateError → JetstreamError J
  header_value : HeaderValueValidateError → JetstreamError J
  client_closed : ClientClosedError → JetstreamError J
  response_error : ResponseError → JetstreamError J
  json : J → JetstreamError J
  api : JetstreamApiError → JetstreamError J
  publish_status : JetstreamPublishError → JetstreamError J

-- `Response` of resources/mod.rs
pub data Response (A : Type 0) : Type 0 where
  error : JetstreamApiError → Response A
  response : A → Response A

-- what one request learns
pub record Exchange : Type 0 where
  pub open_channel : Bool
  pub suffix : ℕ
  pub channel : ℕ
  pub response : Result ResponseError ServerMessage

abbrev pub stream_not_found : JetstreamErrorCode
stream_not_found = record { code = 10059 }

abbrev pub consumer_not_found : JetstreamErrorCode
consumer_not_found = record { code = 10014 }

-- `to_string` of an integer: the digits, without leading zeros; each round prints one
unfoldable pub decimal : ℕ → ℕ → Bytes
decimal zero n = (48 + n % 10) ∷ []
decimal (suc rounds) n =
    let front = decimal rounds (n / 10) in
    if ltb n 10 then (48 + n) ∷ [] else front ++ (48 + n % 10) ∷ []

unfoldable pub new_with_prefix : Subject → JetstreamClient
new_with_prefix prefix = record { prefix = prefix; request_timeout = 2 }

unfoldable pub new : JetstreamClient
unfolding new_with_prefix from_dangerous_value
new = new_with_prefix (from_dangerous_value (codes "$JS.API"))

unfoldable pub new_with_domain : Bytes → Result SubjectValidateError JetstreamClient
unfolding new_with_prefix try_from
new_with_domain domain = do
  prefix ← try_from (codes "$JS." ++ domain ++ codes ".API")
  ok (new_with_prefix prefix)

unfoldable pub subject_for_request : Subject → JetstreamClient → Subject
unfolding from_dangerous_value
subject_for_request endpoint j = from_dangerous_value (j.prefix.text ++ codes "." ++ endpoint.text)

unfoldable pub make_request : Subject → JetstreamClient → Request
unfolding Requests.builder Requests.response_timeout
make_request s j = Requests.response_timeout j.request_timeout (Requests.builder s)

module _ {J : Type 0} where
  -- A request is sent and its response awaited. It never has a reply subject of its own.
  unfoldable pub ask :
      Exchange → Request → Client → Client × Result (JetstreamError J) ServerMessage
  unfolding request_multiplexed
  ask e r c =
      let (c', requested) = request_multiplexed e.open_channel e.suffix e.channel r c in
      (c', do _ ← map_err client_closed requested; map_err response_error e.response)

  -- the subject is made, the payload is made, and the response is read
  unfoldable pub call :
      {A : Type 0}
      → Exchange
      → Bytes
      → Result J Bytes
      → (ServerMessage → Result (JetstreamError J) A)
      → JetstreamClient
      → Client
      → Client × Result (JetstreamError J) A
  unfolding try_from make_request Requests.payload ask
  call e text payload read j c = elim (try_from text) [
    | err invalid ↦ (c, err (subject invalid))
    | ok s ↦ elim payload [
      | err failed ↦ (c, err (json failed))
      | ok bytes ↦
          let (c', answered) = ask e (Requests.payload bytes (make_request s j)) c in
          (c', do m ← answered; read m)
    ]
  ]

  module _ {A : Type 0} (from_slice : Bytes → Result J (Response A)) where
    unfoldable pub accept : Response A → Result (JetstreamError J) A
    accept (error e) = err (api e)
    accept (response a) = ok a

    unfoldable pub read_response : ServerMessage → Result (JetstreamError J) A
    unfolding accept
    read_response m = do r ← map_err json (from_slice m.base.payload); accept r

    unfoldable pub accept_found :
        JetstreamErrorCode → Response A → Result (JetstreamError J) (Option A)
    accept_found missing (error e) = if e.code.code == missing.code then ok none else err (api e)
    accept_found missing (response a) = ok (some a)

    unfoldable pub read_found :
        JetstreamErrorCode → ServerMessage → Result (JetstreamError J) (Option A)
    unfolding accept_found
    read_found missing m = do r ← map_err json (from_slice m.base.payload); accept_found missing r

    -- `config` is turned into JSON by `to_vec`
    unfoldable pub create_stream :
        {K : Type 0}
        → (K → Result J Bytes)
        → Exchange
        → Bytes
        → K
        → JetstreamClient
        → Client
        → Client × Result (JetstreamError J) A
    unfolding call read_response
    create_stream to_vec e name config j c =
        call e (j.prefix.text ++ codes ".STREAM.CREATE." ++ name) (to_vec config) read_response j c

    unfoldable pub stream :
        Exchange → Bytes → JetstreamClient → Client → Client × Result (JetstreamError J) (Option A)
    unfolding call read_found
    stream e name j c =
        call e (j.prefix.text ++ codes ".STREAM.INFO." ++ name) (ok [])
          (read_found stream_not_found) j c

    -- a single filter is part of the subject
    unfoldable pub consumer_filter : List Bytes → Bytes
    consumer_filter [] = []
    consumer_filter (filter_subject ∷ []) = codes "." ++ filter_subject
    consumer_filter (first ∷ second ∷ rest) = []

    unfoldable pub create_consumer :
        {K : Type 0}
        → (Bytes → K → Result J Bytes)
        → Exchange
        → Bytes
        → Bytes
        → List Bytes
        → K
        → JetstreamClient
        → Client
        → Client × Result (JetstreamError J) A
    unfolding call read_response consumer_filter
    create_consumer to_vec e stream_name name filter_subjects config j c =
        call e
          (j.prefix.text
            ++ codes ".CONSUMER.CREATE."
            ++ stream_name
            ++ codes "."
            ++ name
            ++ consumer_filter filter_subjects)
          (to_vec stream_name config) read_response j c

    unfoldable pub consumer :
        Exchange
        → Bytes
        → Bytes
        → JetstreamClient
        → Client
        → Client × Result (JetstreamError J) (Option A)
    unfolding call read_found
    consumer e stream_name consumer_name j c =
        call e
          (j.prefix.text ++ codes ".CONSUMER.INFO." ++ stream_name ++ codes "." ++ consumer_name)
          (ok []) (read_found consumer_not_found) j c

    -- The response carries nothing that is kept.
    unfoldable pub delete_consumer :
        Exchange
        → Bytes
        → Bytes
        → JetstreamClient
        → Client
        → Client × Result (JetstreamError J) (Unit {0})
    unfolding call read_response
    delete_consumer e stream_name consumer_name j c =
        call e
          (j.prefix.text ++ codes ".CONSUMER.DELETE." ++ stream_name ++ codes "." ++ consumer_name)
          (ok []) (λ m. read_response m >>= (λ _. ok tt)) j c
