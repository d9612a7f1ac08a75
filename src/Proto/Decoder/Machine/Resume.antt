-- ===== src/Proto/Decoder/Machine/Resume.antt =====
-- What `decode` makes of a frame that arrives in pieces.
use mathlib.Core.Option
use watermelon.Prelude.{ℕ, ◌<◌, Option, none, some, arith, Result}
use watermelon.Crates.{Crates, IsLawful}
use watermelon.Proto.{ServerOp}
use watermelon.Proto.Decoder.{DecoderStatus, DecoderError, control_line, headers, payload, poisoned}
use watermelon.Proto.Decoder.Machine.{StreamDecoder, Round, continues, returns, panics, rounds}
use watermelon.Proto.Decoder.Machine.Total.{rank}
use watermelon.Proto.Decoder.Machine.Feed.{IsFreshFor}

module _ {I C : Type 0} (crates : Crates I C) (laws : IsLawful crates) where
  -- what the rounds behind a round make of it
  abbrev after : ℕ → Round I → Option (StreamDecoder × Result DecoderError (Option (ServerOp I)))
  after n (continues d) = rounds crates n d
  after n (returns d r) = some (d, r)
  after n panics = none

  abbrev stopped : Option (StreamDecoder × Result DecoderError (Option (ServerOp I))) → Round I
  stopped none = panics
  stopped (some (d, r)) = returns d r

  pub lower-IsFresh : (s : DecoderStatus) (d : StreamDecoder) → rank s < 3 → IsFreshFor s d
  lower-IsFresh (control_line n) d h = absurd (omega arith)
  lower-IsFresh (headers i s r n p) d h = tt
  lower-IsFresh (payload i s r c x m n) d h = tt
  lower-IsFresh poisoned d h = tt
