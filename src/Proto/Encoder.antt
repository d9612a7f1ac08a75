-- ===== src/Proto/Encoder.antt =====
-- watermelon-proto/src/proto/encoder/mod.rs: the trait `FrameEncoder` as an interface, and `encode`
-- over it. The feature `std` is on; without it the JSON of `Connect` is written by `write`.
pub mod Wire
pub mod Framed
pub mod Stream
use watermelon.Prelude.{
  ℕ, ◌+◌, List, [], ◌∷◌, ◌++◌, Option, none, some, Bytes, codes, crlf, length, ◌≡◌, if◌then◌else◌,
}
use watermelon.Crates.{Crates}
use watermelon.QueueGroup.{QueueGroup}
use watermelon.Subject.{Subject}
use watermelon.SubscriptionId.{SubscriptionId}
use watermelon.Headers.Name.{HeaderName}
use watermelon.Headers.Value.{HeaderValue}
use watermelon.Headers.Map.{HeaderMap, iter, has_no_keys}
use watermelon.Proto.{MessageBase, ClientOp, connect, publish, subscribe, unsubscribe, ping, pong}

-- the trait: a method takes the encoder and returns it changed
pub record FrameEncoder (E : Type 0) : Type 0 where
  pub small_write : Bytes → E → E
  pub write : Bytes → E → E

-- What an implementation promises: both methods keep its invariant, and put the bytes behind what it
-- has written.
pub record IsFrameEncoder {E : Type 0} (f : FrameEncoder E) (Inv : E → Type 0) (written : E → Bytes)
    : Type 0 where
  pub keeps_small : (b : Bytes) (e : E) → Inv e → Inv (f.small_write b e)
  pub keeps : (b : Bytes) (e : E) → Inv e → Inv (f.write b e)
  pub small_appends : (b : Bytes) (e : E) → written (f.small_write b e) ≡ written e ++ b
  pub appends : (b : Bytes) (e : E) → written (f.write b e) ≡ written e ++ b

-- the four pieces of one header line
value_pieces : HeaderName → List HeaderValue → List Bytes
value_pieces name [] = []
value_pieces name (value ∷ values) =
    name.text ∷ codes ": " ∷ value.inner ∷ crlf ∷ value_pieces name values

header_pieces : List (HeaderName × List HeaderValue) → List Bytes
unfolding value_pieces
header_pieces [] = []
header_pieces ((name, values) ∷ headers) = value_pieces name values ++ header_pieces headers

-- the pieces that the iterator yields
unfoldable pub encode_headers : HeaderMap → List Bytes
unfolding header_pieces iter
encode_headers headers = (codes "NATS/1.0\r\n" ∷ header_pieces (iter headers)) ++ crlf ∷ []

-- `fold(0, |len, s| len + s.len())`
unfoldable pub sum_lengths : ℕ → List Bytes → ℕ
sum_lengths len [] = len
sum_lengths len (s ∷ pieces) = sum_lengths (len + length s) pieces

reply_text : Option Subject → Option Bytes
reply_text none = none
reply_text (some s) = some s.text

group_text : Option QueueGroup → Option Bytes
group_text none = none
group_text (some g) = some g.text

module _ {I C E : Type 0} (crates : Crates I C) (f : FrameEncoder E) where
  open f use {small_write, write}

  -- an argument and the space behind it, if it is there
  unfoldable pub optional : Option Bytes → E → E
  optional none e = e
  optional (some arg) e = small_write (codes " ") (small_write arg e)

  unfoldable pub write_pieces : List Bytes → E → E
  write_pieces [] e = e
  write_pieces (s ∷ pieces) e = write_pieces pieces (small_write s e)

  -- the lengths that end the control line, and the header block if there is one
  unfoldable pub lengths_and_headers : MessageBase → E → E
  unfolding encode_headers sum_lengths write_pieces has_no_keys
  lengths_and_headers m e =
      let headers_len = sum_lengths 0 (encode_headers m.headers) in
      let total_len = headers_len + length m.payload in
      if has_no_keys m.headers
      then small_write crlf (small_write (crates.itoa (length m.payload)) e)
      else write_pieces (encode_headers m.headers) (
          small_write crlf (
            small_write (crates.itoa total_len)
              (small_write (codes " ") (small_write (crates.itoa headers_len) e))))

  unfoldable pub encode_publish : MessageBase → E → E
  unfolding optional lengths_and_headers reply_text has_no_keys
  encode_publish m e =
      let verb = if has_no_keys m.headers then codes "PUB " else codes "HPUB " in
      let addressed = small_write (codes " ") (small_write m.subject.text (small_write verb e)) in
      let counted = lengths_and_headers m (optional (reply_text m.reply_subject) addressed) in
      small_write crlf (write m.payload counted)

  unfoldable pub encode_subscribe : SubscriptionId → Subject → Option QueueGroup → E → E
  unfolding optional group_text
  encode_subscribe i subject queue_group e =
      let addressed =
        small_write (codes " ") (small_write subject.text (small_write (codes "SUB ") e)) in
      small_write crlf
        (small_write (crates.itoa i.id) (optional (group_text queue_group) addressed))

  max_text : Option ℕ → E → E
  max_text none e = e
  max_text (some n) e = small_write (crates.itoa n) (small_write (codes " ") e)

  unfoldable pub encode_unsubscribe : SubscriptionId → Option ℕ → E → E
  unfolding max_text
  encode_unsubscribe i max_messages e =
      small_write crlf
        (max_text max_messages (small_write (crates.itoa i.id) (small_write (codes "UNSUB ") e)))

  unfoldable pub encode : ClientOp C → E → E
  unfolding encode_publish encode_subscribe encode_unsubscribe
  encode (publish m) e = encode_publish m e
  encode (subscribe i subject queue_group) e = encode_subscribe i subject queue_group e
  encode (unsubscribe i max_messages) e = encode_unsubscribe i max_messages e
  encode (connect c) e =
      small_write crlf (small_write (crates.to_json c) (small_write (codes "CONNECT ") e))
  encode ping e = small_write (codes "PING\r\n") e
  encode pong e = small_write (codes "PONG\r\n") e
