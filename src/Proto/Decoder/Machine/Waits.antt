-- ===== src/Proto/Decoder/Machine/Waits.antt =====
-- What a round of `decode` leaves when it waits for more bytes.
use watermelon.Prelude.{
  subst, sym, ℕ, ◌+◌, ◌≤◌, ◌==◌, ◌++◌, Option, none, some, Bytes, codes, length, take, drop, ◌≡◌,
  ◌≢◌, ◌⊎◌, refl, ap, ◌∙◌, arith, starts_with, Bool-cases, inl, inr, Result, ok, err, length-append,
  ltb, leb, ne→==,
}
use watermelon.Crates.{Crates}
use watermelon.Wire.Lines.{find}
use watermelon.Headers.Map.{HeaderMap}
use watermelon.StatusCode.{StatusCode}
use watermelon.Subject.{Subject}
use watermelon.SubscriptionId.{SubscriptionId}
use watermelon.Proto.Decoder.{
  DecoderStatus, DecoderError, control_line, headers, payload, poisoned, max_head_len,
}
use watermelon.Proto.Decoder.Control.{decode_msg, decode_hmsg}
use watermelon.Proto.Decoder.HeaderBlock.{decode_block, strip_prefix}
use watermelon.Proto.Decoder.Machine.{
  StreamDecoder, returns, Verb, msg, hmsg, minus_err, last_branches, verb, enter, error_line,
  info_line, dispatch_as, dispatch, on_line, step_line, enter_payload, step_headers, step_payload,
  step_in, step,
}
use watermelon.Proto.Decoder.Machine.Feed.{feed, IsFreshFor, IsFresh, seen_round}

module _ {I C : Type 0} (crates : Crates I C) where
  -- The count of searched bytes changes nothing else, as long as it is not the buffer's length.
  enter-counts :
      (a b : ℕ) (buf : Bytes) (r : Result DecoderError DecoderStatus)
      → seen_round (enter crates (record { status = control_line a; read_buf = buf }) r)
        ≡ seen_round (enter crates (record { status = control_line b; read_buf = buf }) r)
  unfolding enter
  enter-counts a b buf (ok s) = refl
  enter-counts a b buf (err e) = refl

  dispatch_as-counts :
      (v : Verb) (a b : ℕ) (buf line : Bytes)
      → seen_round (dispatch_as crates v (record { status = control_line a; read_buf = buf }) line)
        ≡ seen_round
            (dispatch_as crates v (record { status = control_line b; read_buf = buf }) line)
  unfolding dispatch_as
  dispatch_as-counts msg a b buf line = enter-counts a b buf (decode_msg crates line)
  dispatch_as-counts hmsg a b buf line = enter-counts a b buf (decode_hmsg crates line)
  dispatch_as-counts _ a b buf line = refl

  on_line-counts :
      (o : Option ℕ) (a b : ℕ) (buf : Bytes)
      → seen_round (on_line crates (record { status = control_line a; read_buf = buf }) o)
        ≡ seen_round (on_line crates (record { status = control_line b; read_buf = buf }) o)
  unfolding on_line dispatch
  on_line-counts none a b buf = elim (Bool-cases (ltb (length buf) max_head_len)) [
    | inl h ↦ rw h refl
    | inr h ↦ rw h refl
  ]
  on_line-counts (some i) a b buf = elim (Bool-cases (leb (i + 2) (length buf))) [
    | inl h ↦ rw h (dispatch_as-counts (verb (take i buf)) a b (drop (i + 2) buf) (take i buf))
    | inr h ↦ rw h refl
  ]

  pub step-counts :
      (a b : ℕ) (buf : Bytes)
      → a ≢ length buf
      → b ≢ length buf
      → seen_round (step crates (record { status = control_line a; read_buf = buf }))
        ≡ seen_round (step crates (record { status = control_line b; read_buf = buf }))
  unfolding step step_in step_line
  step-counts a b buf ha hb = elim (Bool-cases (starts_with (codes "+OK\r\n") buf)) [
    | inl fast ↦ rw fast refl
    | inr slow ↦ rw (slow, ne→== ha, ne→== hb) (on_line-counts (find crates buf) a b buf)
  ]

  -- A whole line never waits for more bytes.
  enter-waits :
      (d d' : StreamDecoder) (r : Result DecoderError DecoderStatus)
      → enter crates d r ≢ returns d' (ok none)
  unfolding enter
  enter-waits d d' (ok s) h = cc
  enter-waits d d' (err e) h = cc

  error_line-waits : (line : Bytes) → error_line crates line ≢ ok none
  unfolding error_line
  error_line-waits line h = ground arith

  info_line-waits : (o : Option Bytes) → info_line crates o ≢ ok none
  unfolding info_line
  info_line-waits none h = cc
  info_line-waits (some json) h = ground arith

  dispatch_as-waits :
      (v : Verb) (d d' : StreamDecoder) (line : Bytes)
      → dispatch_as crates v d line ≢ returns d' (ok none)
  unfolding dispatch_as
  dispatch_as-waits msg d d' line h = enter-waits d d' (decode_msg crates line) h
  dispatch_as-waits hmsg d d' line h = enter-waits d d' (decode_hmsg crates line) h
  dispatch_as-waits minus_err d d' line h = error_line-waits (drop 5 line) (cc)
  dispatch_as-waits last_branches d d' line h =
      info_line-waits (strip_prefix (codes "INFO ") line) (cc)
  dispatch_as-waits _ d d' line h = cc

  on_line-waits :
      (o : Option ℕ) (d d' : StreamDecoder)
      → on_line crates d o ≡ returns d' (ok none)
      → d' ≡ record d { status = control_line (length d.read_buf) }
  unfolding on_line dispatch
  on_line-waits none d d' h = ground arith
  on_line-waits (some i) d d' h = elim (Bool-cases (leb (i + 2) (length d.read_buf))) [
    | inl whole ↦ absurd (
        dispatch_as-waits (verb (take i d.read_buf))
          (record d { read_buf = drop (i + 2) d.read_buf }) d' (take i d.read_buf) (rw whole at h))
    | inr cut ↦ let impossible = rw cut at h in cc
  ]

  step_line-waits :
      (d d' : StreamDecoder) (n : ℕ)
      → step_line crates d n ≡ returns d' (ok none)
      → (d' ≡ d) ⊎ (d' ≡ record d { status = control_line (length d.read_buf) })
  unfolding step_line
  step_line-waits d d' n h = elim (Bool-cases (starts_with (codes "+OK\r\n") d.read_buf)) [
    | inl fast ↦ let impossible = rw fast at h in cc
    | inr slow ↦ elim (Bool-cases (n == length d.read_buf)) [
      | inl same ↦ let waits = rw (slow, same) at h in inl (cc)
      | inr new_bytes ↦
          inr (on_line-waits (find crates d.read_buf) d d' (rw (slow, new_bytes) at h))
    ]
  ]

  enter_payload-waits :
      (d d' : StreamDecoder) (i : SubscriptionId) (s : Subject) (r : Option Subject) (n : ℕ)
      (block : Result DecoderError (Option StatusCode × Option Bytes × HeaderMap))
      → enter_payload crates d i s r n block ≢ returns d' (ok none)
  unfolding enter_payload
  enter_payload-waits d d' i s r n (ok (c, x, m)) h = cc
  enter_payload-waits d d' i s r n (err x) h = cc

  step_headers-waits :
      (d d' : StreamDecoder) (i : SubscriptionId) (s : Subject) (r : Option Subject) (n p : ℕ)
      → step_headers crates d i s r n p ≡ returns d' (ok none)
      → d' ≡ d
  unfolding step_headers
  step_headers-waits d d' i s r n p h = elim (Bool-cases (ltb (length d.read_buf) n)) [
    | inl short ↦ let waits = rw short at h in cc
    | inr there ↦ absurd (
        enter_payload-waits (record { status = poisoned; read_buf = drop n d.read_buf }) d' i s r p
          (decode_block crates (take n d.read_buf)) (rw there at h))
  ]

  step_payload-waits :
      (d d' : StreamDecoder) (i : SubscriptionId) (s : Subject) (r : Option Subject)
      (c : Option StatusCode) (x : Option Bytes) (m : HeaderMap) (n : ℕ)
      → step_payload crates d i s r c x m n ≡ returns d' (ok none)
      → d' ≡ d
  unfolding step_payload
  step_payload-waits d d' i s r c x m n h = ground arith

  -- A round that waits for more bytes leaves a state that goes on as the state before.
  pub step_in-waits :
      (s : DecoderStatus) (e : Bytes) (buf : Bytes) (d' : StreamDecoder)
      → IsFreshFor s (record { status = s; read_buf = buf })
      → 1 ≤ length e
      → step_in crates s (record { status = s; read_buf = buf }) ≡ returns d' (ok none)
      → seen_round (step crates (feed e d'))
        ≡ seen_round (step crates (record { status = s; read_buf = buf ++ e }))
  unfolding step_in
  step_in-waits (control_line n) e buf d' fresh more h =
      elim (step_line-waits (record { status = control_line n; read_buf = buf }) d' n h) [
        | inl same ↦ ap (λ q. seen_round (step crates (feed e q))) same
        | inr searched ↦
            ap (λ q. seen_round (step crates (feed e q))) searched
            ∙ step-counts (length buf) n (buf ++ e) (λ q. omega (arith, length-append buf e))
                (λ q. omega (arith, length-append buf e))
      ]
  step_in-waits (headers i s r n p) e buf d' fresh more h =
      ap (λ q. seen_round (step crates (feed e q))) (step_headers-waits _ d' i s r n p h)
  step_in-waits (payload i s r c x m n) e buf d' fresh more h =
      ap (λ q. seen_round (step crates (feed e q))) (step_payload-waits _ d' i s r c x m n h)
  step_in-waits poisoned e buf d' fresh more h = cc

  -- A round that waits leaves a count of searched bytes that is no longer than the buffer.
  pub step_in-IsFresh :
      (s : DecoderStatus) (buf : Bytes) (d' : StreamDecoder)
      → IsFreshFor s (record { status = s; read_buf = buf })
      → step_in crates s (record { status = s; read_buf = buf }) ≡ returns d' (ok none)
      → IsFresh d'
  unfolding step_in
  step_in-IsFresh (control_line n) buf d' fresh h =
      elim (step_line-waits (record { status = control_line n; read_buf = buf }) d' n h) [
        | inl same ↦ subst IsFresh (sym same) fresh
        | inr searched ↦ subst IsFresh (sym searched) (omega arith)
      ]
  step_in-IsFresh (headers i s r n p) buf d' fresh h =
      subst IsFresh
        (sym (
          step_headers-waits (record { status = headers i s r n p; read_buf = buf }) d' i s r n p
            h))
        tt
  step_in-IsFresh (payload i s r c x m n) buf d' fresh h =
      subst IsFresh
        (sym (
          step_payload-waits (record { status = payload i s r c x m n; read_buf = buf }) d' i s r c
            x m n h))
        tt
  step_in-IsFresh poisoned buf d' fresh h = cc
