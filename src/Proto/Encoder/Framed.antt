-- ===== src/Proto/Encoder/Framed.antt =====
-- watermelon-proto/src/proto/encoder/framed.rs: one operation to one frame.
use watermelon.Prelude.{[], ◌++◌, Bytes, ◌≡◌, refl}
use watermelon.Crates.{Crates}
use watermelon.Proto.{ClientOp}
use watermelon.Proto.Encoder.{FrameEncoder, IsFrameEncoder}
use watermelon.Proto.Encoder
use watermelon.Proto.Encoder.Wire.{wire, encode_appends}

pub record FramedEncoder : Type 0 where
  pub buf : Bytes

unfoldable pub new : FramedEncoder
new = record { buf = [] }

-- `small_write` of the local type `Encoder`; `write` is that of the trait
abbrev pub frame_encoder : FrameEncoder FramedEncoder
frame_encoder = record {
  small_write = λ b e. record e { buf = e.buf ++ b };
  write = λ b e. record e { buf = e.buf ++ b };
}

pub frame_encoder-IsFrameEncoder : IsFrameEncoder frame_encoder (λ _. Unit {0}) (λ e. e.buf)
frame_encoder-IsFrameEncoder = record {
  keeps_small = λ b e i. tt;
  keeps = λ b e i. tt;
  small_appends = λ b e. refl;
  appends = λ b e. refl;
}

module _ {I C : Type 0} (crates : Crates I C) where
  -- The frame is split off, and the buffer is empty again.
  unfoldable pub encode : ClientOp C → FramedEncoder → Bytes × FramedEncoder
  encode item e =
      let e' = Encoder.encode crates frame_encoder item e in (e'.buf, record { buf = [] })

  -- `FramedEncoder` returns the text of the operation behind what its buffer held, and is then empty.
  pub encode-wire :
      (item : ClientOp C) (e : FramedEncoder) → encode item e ≡ (e.buf ++ wire crates item, new)
  unfolding encode new
  encode-wire item e = λ i. (
    encode_appends crates frame_encoder (λ _. Unit {0}) (λ e'. e'.buf) frame_encoder-IsFrameEncoder
        item e i,
    record { buf = [] },
  )
