-- ===== src/Proto/Encoder/Stream/Runs.antt =====
-- Whatever is queued and taken, the bytes leave a `StreamEncoder` in order.
use watermelon.Prelude.{ℕ, List, [], ◌∷◌, ◌++◌, Option, none, some, Bytes}
use watermelon.Crates.{Crates}
use watermelon.Proto.{ClientOp}
use watermelon.Proto.Encoder.Wire.{wire}
use watermelon.Proto.Encoder.Stream.{StreamEncoder, enqueue_write_op, copy_to_bytes}

-- What happens to an encoder: an operation is queued, or the socket takes some bytes.
pub data Event (C : Type 0) : Type 0 where
  queues : ClientOp C → Event C
  takes : ℕ → Event C

module _ {I C : Type 0} (crates : Crates I C) where
  -- the bytes taken so far, and the encoder; `none` if more is taken than remains
  abbrev pub run : List (Event C) → Bytes → StreamEncoder → Option (Bytes × StreamEncoder)
  run [] out e = some (out, e)
  run (queues op ∷ events) out e = run events out (enqueue_write_op crates op e)
  run (takes n ∷ events) out e = elim (copy_to_bytes n e) [
    | none ↦ none
    | some (b, e') ↦ run events (out ++ b) e'
  ]

  -- the texts of the operations queued, in order
  abbrev pub queued : List (Event C) → Bytes
  queued [] = []
  queued (queues op ∷ events) = wire crates op ++ queued events
  queued (takes n ∷ events) = queued events
