-- ===== src/Connection/Reads/Chunks.antt =====
-- watermelon-net/src/connection/streaming.rs: what a connection reads, whatever pieces it comes in.
use mathlib.Core.Option
use watermelon.Prelude.{List, [], ◌++◌, Option, none, some, Bytes, map, Result, ok, err, ◌≡◌}
use watermelon.Crates.{Crates, IsLawful}
use watermelon.BufList.{all_bytes}
use watermelon.Proto.{ServerOp}
use watermelon.Proto.Decoder.{DecoderError}
use watermelon.Proto.Decoder.Machine.{StreamDecoder, decode}
use watermelon.Proto.Decoder.Machine.Feed.{feed, seen}
use watermelon.Connection.Reads.{received, ReadNext, pending, ready, decoder, poll_read_next}

module _ {I : Type 0} where
  -- what the connection makes of a result of the decoder
  abbrev pub outcome : Result DecoderError (Option (ServerOp I)) → ReadNext I
  outcome (ok none) = pending
  outcome (ok (some op)) = ready (ok op)
  outcome (err e) = ready (err (decoder e))

module _ {I C : Type 0} (crates : Crates I C) (laws : IsLawful crates) where
  -- the pieces that are taken decode as one, and the others are left
  abbrev Reads : List Bytes → StreamDecoder → Type 0
  Reads chunks d =
      (taken : List Bytes) × (left : List Bytes) × (d' : StreamDecoder) × (r : Result DecoderError
        (Option (ServerOp I)))
      × (poll_read_next crates (map received chunks) d ≡ some (d', outcome r, map received left))
      × (chunks ≡ taken ++ left)
      × (Option.map seen (decode crates (feed (all_bytes taken) d)) ≡ some (seen (d', r)))
      × (r ≡ ok none → left ≡ [])
