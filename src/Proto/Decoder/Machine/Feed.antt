-- ===== src/Proto/Decoder/Machine/Feed.antt =====
-- A round of `decode` that goes on does the same with more bytes behind the buffer.
use watermelon.Prelude.{
  ℕ, zero, suc, ◌+◌, ◌≤◌, ◌<◌, ◌==◌, false, [], ◌∷◌, ◌++◌, Option, none, some, Bytes, codes, crlf,
  length, take, drop, ◌≡◌, ◌≢◌, refl, sym, ap, ◌∙◌, arith, starts_with, Bool-cases, Option-cases,
  inl, inr, ==_iff, Result, ok, err, length-append, take-append, drop-append, le→ltb, le→leb, ltb,
  ne→==, subst,
}
use watermelon.Crates.{Crates, IsLawful, index_of-crlf_room, index_of-crlf-append}
use watermelon.Wire.Lines.{find}
use watermelon.Headers.Map.{HeaderMap}
use watermelon.StatusCode.{StatusCode}
use watermelon.Subject.{Subject}
use watermelon.SubscriptionId.{SubscriptionId}
use watermelon.Proto.{ServerOp}
use watermelon.Proto.Decoder.{DecoderStatus, DecoderError, control_line, headers, payload, poisoned}
use watermelon.Proto.Decoder.Control.{decode_msg, decode_hmsg}
use watermelon.Proto.Decoder.HeaderBlock.{decode_block}
use watermelon.Proto.Decoder.Machine.{
  StreamDecoder, Round, continues, returns, panics, Verb, msg, hmsg, ping, pong, plus_ok, minus_err,
  last_branches, verb, enter, dispatch_as, dispatch, on_line, step_line, enter_payload,
  step_headers, step_payload, step_in, step,
}

-- The decoder with more bytes behind those of its buffer.
abbrev pub feed : Bytes → StreamDecoder → StreamDecoder
feed e d = record d { read_buf = d.read_buf ++ e }

-- The count of searched bytes is one of a buffer that was no longer than it is now.
abbrev pub IsFreshFor : DecoderStatus → StreamDecoder → Type 0
IsFreshFor (control_line n) d = n ≤ length d.read_buf
IsFreshFor _ d = Unit

abbrev pub IsFresh : StreamDecoder → Type 0
IsFresh d = IsFreshFor d.status d

-- The status without its count of searched bytes.
abbrev pub uncounted : DecoderStatus → DecoderStatus
uncounted (control_line n) = control_line 0
uncounted (headers i s r h n) = headers i s r h n
uncounted (payload i s r c x m n) = payload i s r c x m n
uncounted poisoned = poisoned

pub uncounted_twice : (s : DecoderStatus) → uncounted (uncounted s) ≡ uncounted s
uncounted_twice (control_line n) = refl
uncounted_twice (headers i s r h n) = refl
uncounted_twice (payload i s r c x m n) = refl
uncounted_twice poisoned = refl

ltb-false : {a b : ℕ} → ltb a b ≡ false → b ≤ a
ltb-false h = ground arith

module _ {I : Type 0} where
  -- what a call returns, and the state that it leaves but for the count
  abbrev pub seen :
      StreamDecoder × Result DecoderError (Option (ServerOp I))
      → StreamDecoder × Result DecoderError (Option (ServerOp I))
  seen (d, r) = (record d { status = uncounted d.status }, r)

  abbrev pub seen_round : Round I → Round I
  seen_round (continues d) = continues d
  seen_round (returns d r) = returns (record d { status = uncounted d.status }) r
  seen_round panics = panics

module _ {I C : Type 0} (crates : Crates I C) where
  enter-feed :
      (e : Bytes) (d d' : StreamDecoder) (r : Result DecoderError DecoderStatus)
      → enter crates d r ≡ continues d'
      → enter crates (feed e d) r ≡ continues (feed e d')
  unfolding enter
  enter-feed e d d' (ok s) h =
      let same : record d { status = s } ≡ d' = cc in ap (λ x. continues (feed e x)) same
  enter-feed e d d' (err x) h = cc

  dispatch_as-feed :
      (v : Verb) (e : Bytes) (d d' : StreamDecoder) (line : Bytes)
      → dispatch_as crates v d line ≡ continues d'
      → dispatch_as crates v (feed e d) line ≡ continues (feed e d')
  unfolding dispatch_as
  dispatch_as-feed msg e d d' line h = enter-feed e d d' (decode_msg crates line) h
  dispatch_as-feed hmsg e d d' line h = enter-feed e d d' (decode_hmsg crates line) h
  dispatch_as-feed ping e d d' line h = cc
  dispatch_as-feed pong e d d' line h = cc
  dispatch_as-feed plus_ok e d d' line h = cc
  dispatch_as-feed minus_err e d d' line h = cc
  dispatch_as-feed last_branches e d d' line h = cc

  dispatch-feed :
      (e : Bytes) (d d' : StreamDecoder) (line : Bytes)
      → dispatch crates d line ≡ continues d'
      → dispatch crates (feed e d) line ≡ continues (feed e d')
  unfolding dispatch
  dispatch-feed e d d' line h = dispatch_as-feed (verb line) e d d' line h

  no_line : (d d' : StreamDecoder) → dispatch crates d [] ≢ continues d'
  unfolding dispatch verb dispatch_as
  no_line d d' h = cc

  -- No line that starts with `+` takes the decoder on.
  plus_line : (d d' : StreamDecoder) (line : Bytes) → dispatch crates d (b'+' ∷ line) ≢ continues d'
  unfolding dispatch
  plus_line d d' line h = elim (Bool-cases (starts_with (codes "OK") line)) [
    | inl fast ↦ let impossible = rw (fast, verb, dispatch_as) at h in cc
    | inr slow ↦ let impossible = rw (slow, verb, dispatch_as) at h in cc
  ]

  fast_path-not :
      (d d' : StreamDecoder) (s e : Bytes) (i : ℕ)
      → dispatch crates d (take i s) ≡ continues d'
      → starts_with (codes "+OK\r\n") (s ++ e) ≡ false
  fast_path-not d d' s e zero h = absurd (no_line d d' h)
  fast_path-not d d' [] e (suc i) h = absurd (no_line d d' h)
  fast_path-not d d' (c ∷ s) e (suc i) h = elim (Bool-cases (c == b'+')) [
    | inl plus ↦
        let same = (==_iff c b'+').0 plus in
        absurd (
          plus_line d d' (take i s)
            (subst (λ x. dispatch crates d (x ∷ take i s) ≡ continues d') same h))
    | inr other ↦ ground arith
  ]

module _ {I C : Type 0} (crates : Crates I C) (laws : IsLawful crates) where
  find-append :
      (s e : Bytes) (i : ℕ)
      → find crates s ≡ some i
      → (find crates (s ++ e) ≡ some i) × (i + 2 ≤ length s)
  unfolding find
  find-append s e i h =
      let first = sym (laws.memmem_first crlf s) ∙ h in
      (
        laws.memmem_first crlf (s ++ e) ∙ index_of-crlf-append s e i first,
        index_of-crlf_room s i first,
      )

  on_line-none : (d d' : StreamDecoder) → on_line crates d none ≢ continues d'
  unfolding on_line
  on_line-none d d' h = ground arith

  on_line-feed :
      (e : Bytes) (d d' : StreamDecoder) (i : ℕ)
      → i + 2 ≤ length d.read_buf
      → on_line crates d (some i) ≡ continues d'
      → (starts_with (codes "+OK\r\n") (d.read_buf ++ e) ≡ false)
        × (on_line crates (feed e d) (some i) ≡ continues (feed e d'))
  unfolding on_line
  on_line-feed e d d' i room h =
      let rest : StreamDecoder = record d { read_buf = drop (i + 2) d.read_buf } in
      let line : dispatch crates rest (take i d.read_buf) ≡ continues d' = rw (le→leb room) at h in
      let long : i + 2 ≤ length (d.read_buf ++ e) = omega (arith, length-append d.read_buf e) in
      (
        fast_path-not crates rest d' d.read_buf e i line,
        rw
            (
              le→leb long,
              take-append i d.read_buf e (omega arith),
              drop-append (i + 2) d.read_buf e room,
            )
            (dispatch-feed crates e rest d' (take i d.read_buf) line),
      )

  step_line-feed :
      (e : Bytes) (d d' : StreamDecoder) (n : ℕ)
      → n < length d.read_buf + length e
      → step_line crates d n ≡ continues d'
      → step_line crates (feed e d) n ≡ continues (feed e d')
  unfolding step_line
  step_line-feed e d d' n fresh h = elim (Bool-cases (starts_with (codes "+OK\r\n") d.read_buf)) [
    | inl fast ↦ let impossible = rw (fast, step_line) at h in cc
    | inr slow ↦ elim (Bool-cases (n == length d.read_buf)) [
      | inl same ↦ let impossible = rw (slow, same, step_line) at h in cc
      | inr new_bytes ↦ elim (Option-cases (find crates d.read_buf)) [
        | inl nowhere ↦ absurd (on_line-none d d' (rw (slow, new_bytes, nowhere, step_line) at h))
        | inr (i, found) ↦
            let (later, room) = find-append d.read_buf e i found in
            let (not_fast, line) =
              on_line-feed e d d' i room (rw (slow, new_bytes, found, step_line) at h) in
            let other : (n == length (d.read_buf ++ e)) ≡ false =
              ne→== (λ q. omega (arith, length-append d.read_buf e)) in
            rw (not_fast, other, later) line
      ]
    ]
  ]

  enter_payload-feed :
      (e : Bytes) (d d' : StreamDecoder) (i : SubscriptionId) (s : Subject) (r : Option Subject)
      (n : ℕ) (block : Result DecoderError (Option StatusCode × Option Bytes × HeaderMap))
      → enter_payload crates d i s r n block ≡ continues d'
      → enter_payload crates (feed e d) i s r n block ≡ continues (feed e d')
  unfolding enter_payload
  enter_payload-feed e d d' i s r n (ok (c, x, m)) h =
      let same : record d { status = payload i s r c x m n } ≡ d' = cc in
      ap (λ q. continues (feed e q)) same
  enter_payload-feed e d d' i s r n (err x) h = cc

  step_headers-feed :
      (e : Bytes) (d d' : StreamDecoder) (i : SubscriptionId) (s : Subject) (r : Option Subject)
      (n p : ℕ)
      → step_headers crates d i s r n p ≡ continues d'
      → step_headers crates (feed e d) i s r n p ≡ continues (feed e d')
  unfolding step_headers
  step_headers-feed e d d' i s r n p h = elim (Bool-cases (ltb (length d.read_buf) n)) [
    | inl short ↦ let impossible = rw short at h in cc
    | inr there ↦
        let room : n ≤ length d.read_buf = ltb-false there in
        let longer : ltb (length (d.read_buf ++ e)) n ≡ false =
          le→ltb _ _ (omega (arith, length-append d.read_buf e)) in
        rw (longer, take-append n d.read_buf e room, drop-append n d.read_buf e room)
          (enter_payload-feed e (record { status = poisoned; read_buf = drop n d.read_buf }) d' i s
            r p (decode_block crates (take n d.read_buf)) (rw there at h))
  ]

  step_payload-stops :
      (d d' : StreamDecoder) (i : SubscriptionId) (s : Subject) (r : Option Subject)
      (c : Option StatusCode) (x : Option Bytes) (m : HeaderMap) (n : ℕ)
      → step_payload crates d i s r c x m n ≢ continues d'
  unfolding step_payload
  step_payload-stops d d' i s r c x m n h = ground arith

  -- A round that goes on does the same with more bytes behind the buffer.
  step_in-feed :
      (s : DecoderStatus) (e : Bytes) (d d' : StreamDecoder)
      → IsFreshFor s d
      → 1 ≤ length e
      → step_in crates s d ≡ continues d'
      → step_in crates s (feed e d) ≡ continues (feed e d')
  unfolding step_in
  step_in-feed (control_line n) e d d' fresh more h = step_line-feed e d d' n (omega arith) h
  step_in-feed (headers i s r n p) e d d' fresh more h = step_headers-feed e d d' i s r n p h
  step_in-feed (payload i s r c x m n) e d d' fresh more h =
      absurd (step_payload-stops d d' i s r c x m n h)
  step_in-feed poisoned e d d' fresh more h = cc

  pub step-feed :
      (e : Bytes) (d d' : StreamDecoder)
      → IsFresh d
      → 1 ≤ length e
      → step crates d ≡ continues d'
      → step crates (feed e d) ≡ continues (feed e d')
  unfolding step
  step-feed e d d' fresh more h = step_in-feed d.status e d d' fresh more h
