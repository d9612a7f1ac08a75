-- ===== src/Connection.antt =====
-- watermelon-net/src/connection/streaming.rs, the writing half: an encoder in front of a socket. What
-- the socket returns is an argument of the call, and `sent` logs the bytes that it took.
pub mod Writes
pub mod Reads
pub mod Websocket
use watermelon.Prelude.{
  ℕ, ◌==◌, ◌&&◌, Bool, true, false, [], ◌++◌, Option, none, some, Bytes, take, ltb, length,
  if◌then◌else◌,
}
use watermelon.Crates.{Crates}
use watermelon.BufList.{all_bytes}
use watermelon.Proto.{ClientOp}
use watermelon.Proto.Encoder.Stream.{StreamEncoder}
use watermelon.Proto.Encoder.Stream

pub record StreamingConnection : Type 0 where
  pub encoder : StreamEncoder
  pub may_flush : Bool
  pub sent : Bytes

-- `Poll<io::Result<A>>`
pub data Poll (A : Type 0) : Type 0 where
  pending failed : Poll A
  ready : A → Poll A

unfoldable pub new : StreamingConnection
unfolding Stream.new
new = record { encoder = Stream.new; may_flush = false; sent = [] }

unfoldable pub may_write : StreamingConnection → Bool
unfolding Stream.has_remaining
may_write c = Stream.has_remaining c.encoder

unfoldable pub may_enqueue_more_ops : StreamingConnection → Bool
unfolding Stream.remaining
may_enqueue_more_ops c = ltb (Stream.remaining c.encoder) 8290304

unfoldable pub enqueue_write_op :
    {I C : Type 0} → Crates I C → ClientOp C → StreamingConnection → StreamingConnection
unfolding Stream.enqueue_write_op
enqueue_write_op crates item c = record c {
  encoder = Stream.enqueue_write_op crates item c.encoder;
}

-- The bytes handed to the socket: up to 64 slices, or one chunk.
unfoldable pub offered : Bool → StreamEncoder → Bytes
unfolding Stream.chunk Stream.vectored Stream.remaining
offered is_write_vectored e =
    let chunk = Stream.chunk e in
    if ltb (length chunk) (Stream.remaining e) && is_write_vectored
    then all_bytes (Stream.vectored 64 e)
    else chunk

-- behind the call of the socket
unfoldable pub finish_write :
    Bytes → Poll ℕ → StreamingConnection → Option (StreamingConnection × Poll ℕ)
unfolding Stream.advance
finish_write bytes pending c = some (record c { may_flush = false }, pending)
finish_write bytes failed c = some (c, failed)
finish_write bytes (ready n) c = elim (Stream.advance n c.encoder) [
  | none ↦ none
  | some encoder ↦
      some (record { encoder = encoder; may_flush = true; sent = c.sent ++ take n bytes }, ready n)
]

-- `none`: the encoder has fewer bytes than the socket says it took
unfoldable pub poll_write_next :
    Bool → Poll ℕ → StreamingConnection → Option (StreamingConnection × Poll ℕ)
unfolding Stream.remaining offered finish_write
poll_write_next is_write_vectored outcome c =
    if Stream.remaining c.encoder == 0
    then some (c, ready 0)
    else finish_write (offered is_write_vectored c.encoder) outcome c

unfoldable pub poll_flush :
    Poll (Unit {0}) → StreamingConnection → StreamingConnection × Poll (Unit {0})
poll_flush (ready u) c = (record c { may_flush = false }, ready u)
poll_flush outcome c = (c, outcome)
