-- ===== src/Jetstream/Listings.antt =====
-- watermelon/src/client/jetstream/commands/stream_list.rs and consumer_list.rs: the paged listings. The
-- answer of the future that fetches a page is an argument.
pub mod Complete
use watermelon.Prelude.{
  ℕ, ◌+◌, ◌%◌, ◌^◌, Bool, true, false, List, [], ◌∷◌, Option, none, some, Bytes, codes, length, ltb,
  if◌then◌else◌, ◌&&◌, ◌++◌, is_empty, Result, ok, err, ◌>>=◌, map_err,
}
use watermelon.Subject.{Subject, SubjectValidateError, try_from}
use watermelon.Client.{Client, Poll, pending, ready}
use watermelon.Client.Requests
use watermelon.Jetstream.{
  JetstreamClient, JetstreamError, subject, json, Exchange, ask, make_request, subject_for_request,
}

-- `StreamsResponse` and `ConsumersResponse`
pub record Page (A : Type 0) : Type 0 where
  pub limit : ℕ
  pub items : List A

-- The fields that `Streams` and `Consumers` share; a fetch that runs has taken its offset along.
pub record Listing (A : Type 0) : Type 0 where
  pub offset : ℕ
  pub fetch : Option ℕ
  pub buffer : List A
  pub exhausted : Bool

pub record Consumers (A : Type 0) : Type 0 where
  pub listing : Listing A
  pub partial_subject : Option Subject
  pub invalid_stream_name : Option SubjectValidateError

-- the future: one request for a page
unfoldable pub fetch_page :
    {A J : Type 0}
    → (ℕ → Bytes)
    → (Bytes → Result J (Page A))
    → Exchange
    → Subject
    → ℕ
    → JetstreamClient
    → Client
    → Client × Result (JetstreamError J) (Page A)
unfolding ask make_request subject_for_request Requests.payload
fetch_page to_vec from_slice e endpoint offset j c =
    let request =
      Requests.payload (to_vec offset) (make_request (subject_for_request endpoint j) j) in
    let (c', answered) = ask e request c in
    (c', do m ← answered; map_err json (from_slice m.base.payload))

module _ {A : Type 0} where
  -- `Streams::new`
  unfoldable pub new : Listing A
  new = record { offset = 0; fetch = none; buffer = []; exhausted = false }

  -- a page has arrived; the offset is a `u32`
  unfoldable pub receive_page : Page A → Listing A → Listing A
  receive_page page s =
      if ltb (length page.items) page.limit
      then record s { fetch = none; buffer = page.items; exhausted = true }
      else if is_empty page.items
      then record s { fetch = none; buffer = page.items }
      else record s { fetch = none; buffer = page.items; offset = (s.offset + page.limit) % 2 ^ 32 }

  -- the offset of the fetch, which starts unless one runs
  unfoldable pub fetch_offset : Listing A → ℕ
  fetch_offset s = elim s.fetch [ none ↦ s.offset | some offset ↦ offset ]

  unfoldable pub poll_fetch :
      {E : Type 0} → Poll (Result E (Page A)) → Listing A → Listing A × Poll (Option (Result E A))
  unfolding receive_page fetch_offset
  poll_fetch pending s = (record s { fetch = some (fetch_offset s) }, pending)
  poll_fetch (ready (ok page)) s = (receive_page page s, pending)
  poll_fetch (ready (err e)) s = (record s { fetch = none }, ready (some (err e)))

  -- `poll_next` of `Streams`
  unfoldable pub poll_next :
      {E : Type 0} → Poll (Result E (Page A)) → Listing A → Listing A × Poll (Option (Result E A))
  unfolding poll_fetch
  poll_next fetched s = elim s.buffer [
    | x ∷ buffer ↦ (record s { buffer = buffer }, ready (some (ok x)))
    | [] ↦ if s.exhausted then (s, ready none) else poll_fetch fetched s
  ]

  unfoldable pub is_terminated : Listing A → Bool
  is_terminated s = is_empty s.buffer && s.exhausted

  -- `Consumers::new`
  unfoldable pub new_consumers : Bytes → Consumers A
  unfolding new try_from
  new_consumers stream_name = elim (try_from (codes "CONSUMER.LIST." ++ stream_name)) [
    | ok s ↦ record { listing = new; partial_subject = some s; invalid_stream_name = none }
    | err e ↦ record { listing = new; partial_subject = none; invalid_stream_name = some e }
  ]

  -- `poll_next` of `Consumers`
  unfoldable pub poll_consumers :
      {J : Type 0}
      → Poll (Result (JetstreamError J) (Page A))
      → Consumers A
      → Consumers A × Poll (Option (Result (JetstreamError J) A))
  unfolding poll_next
  poll_consumers fetched s =
      let (listing, polled) = poll_next fetched s.listing in
      elim s.invalid_stream_name [
        | some e ↦ (
          record s { invalid_stream_name = none; listing = record s.listing { exhausted = true } },
          ready (some (err (subject e))),
        )
        | none ↦ (record s { listing = listing }, polled)
      ]
