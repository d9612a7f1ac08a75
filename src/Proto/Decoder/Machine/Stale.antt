-- ===== src/Proto/Decoder/Machine/Stale.antt =====
-- The count of searched bytes that `decode` keeps when a control line answers at once.
use watermelon.Prelude.{
  ◌+◌, ◌<◌, false, ◌++◌, Option, none, some, Bytes, codes, crlf, length, ◌≡◌, refl, ap, ◌∙◌, arith,
  starts_with, ==_refl, Result, ok, length-append,
}
use watermelon.Crates.{Crates, IsLawful}
use watermelon.Proto.{ServerOp}
use watermelon.Proto.Decoder.{DecoderError, control_line, max_head_len}
use watermelon.Proto.Decoder.Machine.{
  StreamDecoder, new, returns, verb, error_line, dispatch_as, dispatch, on_line, step_line, step_in,
  step, rounds, decode,
}
use watermelon.Proto.Decoder.Machine.Feed.{feed}
use watermelon.Crates.{LacksCrlf, index_of-crlf-none}
use watermelon.Proto.Decoder.Machine.Frames.{step_line-crlf}

module _ {I C : Type 0} (crates : Crates I C) (laws : IsLawful crates) where
  abbrev pub searched : Bytes → Bytes → StreamDecoder
  searched line buf = record { status = control_line (length line); read_buf = buf }

  rounds_one :
      (d d' : StreamDecoder) (r : Result DecoderError (Option (ServerOp I)))
      → step crates d ≡ returns d' r
      → decode crates d ≡ some (d', r)
  unfolding decode rounds
  rounds_one d d' r h = rw (h, rounds) refl

  decode-searched :
      (line tail : Bytes)
      → starts_with (codes "+OK\r\n") tail ≡ false
      → length tail ≡ length line
      → decode crates (searched line tail) ≡ some (searched line tail, ok none)
  unfolding step step_in step_line
  decode-searched line tail slow same =
      rounds_one (searched line tail) (searched line tail) (ok none)
        (rw (slow, same, ==_refl (length line)) refl)

  -- An `-ERR` line arrives without its end, and its end comes with as many bytes of the next frames
  -- as the line had. The line is answered, but the count of searched bytes stays, and it is by now
  -- the length of the buffer: `decode` asks for more bytes, whatever whole frames are in the buffer.
  pub decode_stale :
      (text tail : Bytes) (op : ServerOp I)
      → LacksCrlf text
      → error_line crates text ≡ ok (some op)
      → 5 + length text < max_head_len
      → starts_with (codes "+OK\r\n") tail ≡ false
      → length tail ≡ 5 + length text
      → let line = codes "-ERR " ++ text in
        (decode crates (feed line new) ≡ some (searched line line, ok none))
        × (decode crates (feed (crlf ++ tail) (searched line line))
            ≡ some (searched line tail, ok (some op)))
        × (decode crates (searched line tail) ≡ some (searched line tail, ok none))
  unfolding new step step_in step_line on_line dispatch verb dispatch_as
  decode_stale text tail op lacks read short slow same =
      let line = codes "-ERR " ++ text in
      let none_lacks : LacksCrlf line = (refl, (refl, (refl, (refl, (refl, lacks))))) in
      let nowhere = laws.memmem_first crlf line ∙ index_of-crlf-none line none_lacks in
      (
        rounds_one (feed line new) (searched line line) (ok none) (ground (arith, nowhere)),
        rounds_one (feed (crlf ++ tail) (searched line line)) (searched line tail) (ok (some op)) (
            step_line-crlf crates laws line tail (length line) (control_line (length line))
              none_lacks refl (λ q. omega (arith, length-append text (crlf ++ tail)))
            ∙ ap (returns (searched line tail)) read),
        decode-searched line tail slow (omega (arith, same)),
      )
