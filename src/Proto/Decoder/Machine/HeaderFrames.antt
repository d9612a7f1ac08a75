-- ===== src/Proto/Decoder/Machine/HeaderFrames.antt =====
-- What `decode` makes of a whole `HMSG` frame at the front of the buffer.
use watermelon.Prelude.{ℕ, ◌+◌, ◌++◌, Option, Bytes, codes, crlf, length}
use watermelon.Crates.{Crates, IsLawful}
use watermelon.Subject.{Subject}
use watermelon.SubscriptionId.{SubscriptionId}
use watermelon.Headers.Map.{HeaderMap}
use watermelon.StatusCode.{StatusCode}
use watermelon.Proto
use watermelon.Proto.Encoder.Wire.{header_block}
use watermelon.Proto.Decoder.Machine.Frames.{arguments}

module _ {I C : Type 0} (crates : Crates I C) (laws : IsLawful crates) where
  open crates use {itoa}

  abbrev both_lengths : ℕ → ℕ → Bytes
  both_lengths a b = itoa a ++ (codes " " ++ itoa (a + b))

  -- an `HMSG` frame, with what follows it in the stream
  abbrev pub hmsg_frame :
      SubscriptionId → Subject → Option Subject → HeaderMap → Bytes → Bytes → Bytes
  hmsg_frame i s r h body rest =
      let block = header_block h in
      (codes "HMSG " ++ arguments crates laws i s r (both_lengths (length block) (length body)))
      ++ (crlf ++ (block ++ (body ++ (crlf ++ rest))))
