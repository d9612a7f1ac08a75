-- ===== src/Connection/Reads.antt =====
-- watermelon-net/src/connection/streaming.rs, the reading half: a decoder behind a socket. It touches
-- no other field of the connection. What the socket reads is an argument.
pub mod Chunks
use watermelon.Prelude.{List, [], ◌∷◌, Option, none, some, Bytes, Result, ok, err, ◌++◌}
use watermelon.Crates.{Crates}
use watermelon.Proto.{ServerOp}
use watermelon.Proto.Decoder.{DecoderError}
use watermelon.Proto.Decoder.Machine.{StreamDecoder, decode}

-- what `read_buf` returns when it is ready; no bytes mean the end
pub data Read : Type 0 where
  received : Bytes → Read
  failed : Read

pub data StreamingReadError : Type 0 where
  decoder : DecoderError → StreamingReadError
  unexpected_eof io : StreamingReadError

pub data ReadNext (I : Type 0) : Type 0 where
  pending : ReadNext I
  ready : Result StreamingReadError (ServerOp I) → ReadNext I

-- the bytes that a read puts into the decoder's buffer
unfoldable pub read_buf : Bytes → StreamDecoder → StreamDecoder
read_buf bytes d = record d { read_buf = d.read_buf ++ bytes }

module _ {I C : Type 0} (crates : Crates I C) where
  -- `poll_read_next`, with the reads that are left. Behind them the socket is pending. `none` is a panic
  -- of the decoder.
  unfoldable pub poll_read_next :
      List Read → StreamDecoder → Option (StreamDecoder × ReadNext I × List Read)
  unfolding decode read_buf
  poll_read_next [] d = elim (decode crates d) [
    | none ↦ none
    | some (d', ok (some op)) ↦ some (d', ready (ok op), [])
    | some (d', ok none) ↦ some (d', pending, [])
    | some (d', err e) ↦ some (d', ready (err (decoder e)), [])
  ]
  poll_read_next (read ∷ reads) d = elim (decode crates d) [
    | none ↦ none
    | some (d', ok (some op)) ↦ some (d', ready (ok op), read ∷ reads)
    | some (d', ok none) ↦ elim read [
      | received [] ↦ some (d', ready (err unexpected_eof), reads)
      | received (c ∷ bytes) ↦ poll_read_next reads (read_buf (c ∷ bytes) d')
      | failed ↦ some (d', ready (err io), reads)
    ]
    | some (d', err e) ↦ some (d', ready (err (decoder e)), read ∷ reads)
  ]
