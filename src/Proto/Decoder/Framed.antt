-- ===== src/Proto/Decoder/Framed.antt =====
-- watermelon-proto/src/proto/decoder/framed.rs: one frame to one operation.
use watermelon.Prelude.{Option, none, some, Bytes, Result, ok, err}
use watermelon.Crates.{Crates}
use watermelon.Subject.{Subject}
use watermelon.SubscriptionId.{SubscriptionId}
use watermelon.Proto.{ServerOp}
use watermelon.Proto
use watermelon.Proto.Decoder.{DecoderError, control_line}
use watermelon.Proto.Decoder.Machine.{StreamDecoder, decode}

pub data FrameDecoderError : Type 0 where
  incomplete_frame : FrameDecoderError
  decoder : DecoderError → FrameDecoderError

module _ {I : Type 0} where
  -- the arms of the match, with the bytes left of the frame
  answer :
      StreamDecoder × Result DecoderError (Option (ServerOp I))
      → Bytes × Result FrameDecoderError (ServerOp I)
  answer (d, ok (some server_op)) = (d.read_buf, ok server_op)
  answer (d, ok none) = (d.read_buf, err incomplete_frame)
  answer (d, err e) = (d.read_buf, err (decoder e))

module _ {I C : Type 0} where
  -- `none` as for `decode`
  unfoldable pub decode_frame :
      Crates I C → Bytes → Option (Bytes × Result FrameDecoderError (ServerOp I))
  unfolding decode answer
  decode_frame crates frame =
      elim (decode crates (record { status = control_line 0; read_buf = frame })) [
        | none ↦ none
        | some r ↦ some (answer r)
      ]
