-- ===== src/Proto/Decoder/Machine/Fresh.antt =====
-- The count of searched bytes that `decode` leaves when it asks for more.
use mathlib.Core.Option.{some-injective}
use watermelon.Prelude.{ℕ, zero, suc, none, some, ◌≡◌, ap, ◌∙◌, arith, inl, inr, ok}
use watermelon.Crates.{Crates, IsLawful}
use watermelon.Proto.Decoder.Machine.{StreamDecoder, returns, step, rounds, decode}
use watermelon.Proto.Decoder.Machine.Total.{IsWithin, Round-cases, rank_max, step-Leaves}
use watermelon.Proto.Decoder.Machine.Feed.{IsFresh}
use watermelon.Proto.Decoder.Machine.Waits.{step_in-IsFresh}
use watermelon.Proto.Decoder.Machine.Resume.{lower-IsFresh}

module _ {I C : Type 0} (crates : Crates I C) (laws : IsLawful crates) where
  step-IsFresh :
      (d d' : StreamDecoder) → IsFresh d → step crates d ≡ returns d' (ok none) → IsFresh d'
  unfolding step
  step-IsFresh d d' fresh h = step_in-IsFresh crates d.status d.read_buf d' fresh h

  rounds-IsFresh :
      (n : ℕ) (d d' : StreamDecoder)
      → IsWithin d.status
      → IsFresh d
      → rounds crates n d ≡ some (d', ok none)
      → IsFresh d' × IsWithin d'.status
  unfolding rounds
  rounds-IsFresh zero d d' w fresh h = cc
  rounds-IsFresh (suc n) d d' w fresh h = elim (Round-cases (step crates d)) [
    | inl (next, goes_on) ↦
        let (within, lower, shorter) = rw goes_on at (step-Leaves crates laws d w) in
        rounds-IsFresh n next d' within
          (lower-IsFresh crates laws next.status next (omega (arith, rank_max d.status)))
          (rw (goes_on, rounds) at h)
    | inr (inl (next, answer, stops)) ↦
        let answered = some-injective (next, answer) (d', ok none) (rw (stops, rounds) at h) in
        let waits : step crates d ≡ returns d' (ok none) =
          stops ∙ ap (λ p. returns p.0 p.1) answered in
        (step-IsFresh d d' fresh waits, (rw waits at (step-Leaves crates laws d w)).0)
    | inr (inr panicked) ↦ let impossible = rw (panicked, rounds) at h in cc
  ]

  -- `decode` leaves its state as it wants it, where it asks for more bytes.
  pub decode-IsFresh :
      (d d' : StreamDecoder)
      → IsWithin d.status
      → IsFresh d
      → decode crates d ≡ some (d', ok none)
      → IsFresh d' × IsWithin d'.status
  unfolding decode
  decode-IsFresh d d' w fresh h = rounds-IsFresh 3 d d' w fresh h
