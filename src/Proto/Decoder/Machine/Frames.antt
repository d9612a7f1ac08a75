-- ===== src/Proto/Decoder/Machine/Frames.antt =====
-- What `decode` makes of a whole `MSG` or `HMSG` frame at the front of the buffer.
use watermelon.Prelude.{
  ℕ, zero, suc, ◌+◌, ◌≤◌, ◌==◌, true, false, [], ◌∷◌, ◌++◌, Option, none, some, Bytes, codes, crlf,
  length, drop, All-append, ◌≡◌, ◌≢◌, refl, ap, ◌∙◌, arith, starts_with, ok, take_prefix,
  drop_prefix, length-append, le→ltb, le→leb, ne→==, ltb,
}
use watermelon.Crates.{Crates, IsLawful, LacksCrlf, index_of-crlf}
use watermelon.Wire.Uint.{parse_unsigned, max_u64}
use watermelon.Wire.Uint.Laws.{parse_unsigned_complete}
use watermelon.Subject.{Subject}
use watermelon.SubscriptionId.{SubscriptionId}
use watermelon.Headers.Map.{HeaderMap}
use watermelon.StatusCode.{StatusCode}
use watermelon.Proto.{ServerOp}
use watermelon.Proto
use watermelon.Proto.Decoder.{DecoderStatus, control_line, payload, max_msg_len}
use watermelon.Proto.Decoder.Control.{parse_bounded}
use watermelon.Proto.Decoder.Machine.{returns, dispatch, step_line, step_payload, saturating_add}
use watermelon.Proto.Decoder.Machine.Arguments.{IsArgument, IsArgument-LacksCrlf, itoa-IsArgument}

drop_line :
    (line rest : Bytes) (k : ℕ) → k ≡ length line + 2 → drop k (line ++ (crlf ++ rest)) ≡ rest
drop_line [] rest k e = ap (λ n. drop n (crlf ++ rest)) e
drop_line (c ∷ line) rest zero e = absurd (omega arith)
drop_line (c ∷ line) rest (suc k) e = drop_line line rest k (omega arith)

module _ {I C : Type 0} (crates : Crates I C) (laws : IsLawful crates) where
  open crates use {itoa}

  pub parse-itoa : (bound n : ℕ) → n ≤ bound → parse_unsigned bound (itoa n) ≡ ok n
  parse-itoa bound n h =
      let (fits, over) =
        parse_unsigned_complete bound (itoa n) (laws.itoa_ne_nil n) (laws.itoa_digits n) in
      fits (rw (laws.itoa_value n) h) ∙ ap ok (laws.itoa_value n)

  pub parse_bounded-itoa : (n : ℕ) → n ≤ max_msg_len → parse_bounded (itoa n) ≡ ok n
  unfolding parse_bounded
  parse_bounded-itoa n h = ground (arith, parse-itoa max_u64 n)

  -- A whole line is cut off the buffer and dispatched, unless the buffer was searched before.
  pub step_line-crlf :
      (line rest : Bytes) (n : ℕ) (s : DecoderStatus)
      → LacksCrlf line
      → starts_with (codes "+OK\r\n") (line ++ (crlf ++ rest)) ≡ false
      → n ≢ length (line ++ (crlf ++ rest))
      → step_line crates (record { status = s; read_buf = line ++ (crlf ++ rest) }) n
        ≡ dispatch crates (record { status = s; read_buf = rest }) line
  unfolding step_line
  step_line-crlf line rest n s lacks slow new_bytes =
      let found = laws.memmem_first crlf (line ++ (crlf ++ rest)) ∙ index_of-crlf line rest lacks in
      let room : length line + 2 ≤ length (line ++ (crlf ++ rest)) =
        omega (arith, length-append line (crlf ++ rest)) in
      rw (
        slow,
        ne→== new_bytes,
        found,
        le→leb room,
        drop_line line rest (length line + 2) refl,
        take_prefix line (crlf ++ rest),
      )

  pub step_payload-whole :
      (body rest : Bytes) (i : SubscriptionId) (s : Subject) (r : Option Subject)
      (c : Option StatusCode) (x : Option Bytes) (m : HeaderMap) (d : DecoderStatus)
      → length body ≤ max_msg_len
      → step_payload crates
          (record { status = d; read_buf = body ++ (crlf ++ rest) })
          i
          s
          r
          c
          x
          m
          (length body)
        ≡ returns
            (record { status = control_line 0; read_buf = rest })
            (ok (
              some (
                Proto.ServerOp.message (record {
                  status_code = c;
                  status_description = x;
                  subscription_id = i;
                  base = record { subject = s; reply_subject = r; headers = m; payload = body };
                }))))
  unfolding step_payload
  step_payload-whole body rest i s r c x m d h =
      let whole = length-append body (crlf ++ rest) in
      let full : ltb (length (body ++ (crlf ++ rest))) (saturating_add (length body) 2) ≡ false =
        le→ltb _ _ (omega (arith, whole)) in
      let room : ltb (length (body ++ (crlf ++ rest))) (length body + 2) ≡ false =
        le→ltb _ _ (omega (arith, whole)) in
      rw (full, room, drop_prefix body (crlf ++ rest), take_prefix body (crlf ++ rest))

-- A subject that a control line can carry, and that the crates take for text.
abbrev pub IsSubjectText : {I C : Type 0} → Crates I C → Subject → Type 0
IsSubjectText crates s = IsArgument s.text × (crates.is_utf8 s.text ≡ true)

abbrev pub IsReplyText : {I C : Type 0} → Crates I C → Option Subject → Type 0
IsReplyText crates none = Unit
IsReplyText crates (some r) = IsSubjectText crates r

-- the reply subject and a space, if there is one, in front of the lengths
abbrev pub with_reply : Option Subject → Bytes → Bytes
with_reply none lengths = lengths
with_reply (some r) lengths = r.text ++ (codes " " ++ lengths)

pub LacksCrlf-append : (a b : Bytes) → LacksCrlf a → LacksCrlf b → LacksCrlf (a ++ b)
LacksCrlf-append a b = All-append (λ c. (c == b'\r') ≡ false) a b

module _ {I C : Type 0} (crates : Crates I C) (laws : IsLawful crates) where
  open crates use {itoa}

  -- subject, subscription, reply subject and lengths of a message
  abbrev pub arguments : SubscriptionId → Subject → Option Subject → Bytes → Bytes
  arguments i s r lengths =
      s.text ++ (codes " " ++ (itoa i.id ++ (codes " " ++ with_reply r lengths)))

  with_reply-LacksCrlf :
      (r : Option Subject) (lengths : Bytes)
      → IsReplyText crates r
      → LacksCrlf lengths
      → LacksCrlf (with_reply r lengths)
  with_reply-LacksCrlf none lengths hr hl = hl
  with_reply-LacksCrlf (some r) lengths hr hl =
      LacksCrlf-append r.text (codes " " ++ lengths) (IsArgument-LacksCrlf r.text hr.0.1) (refl, hl)

  pub arguments-LacksCrlf :
      (i : SubscriptionId) (s : Subject) (r : Option Subject) (lengths : Bytes)
      → IsSubjectText crates s
      → IsReplyText crates r
      → LacksCrlf lengths
      → LacksCrlf (arguments i s r lengths)
  arguments-LacksCrlf i s r lengths hs hr hl =
      LacksCrlf-append s.text _ (IsArgument-LacksCrlf s.text hs.0.1) (
        refl,
        LacksCrlf-append (itoa i.id) _
            (IsArgument-LacksCrlf (itoa i.id) (itoa-IsArgument crates laws i.id).1)
            (refl, with_reply-LacksCrlf r lengths hr hl),
      )

  -- a `MSG` frame, with what follows it in the stream
  abbrev pub msg_frame : SubscriptionId → Subject → Option Subject → Bytes → Bytes → Bytes
  msg_frame i s r body rest =
      (codes "MSG " ++ arguments i s r (itoa (length body))) ++ (crlf ++ (body ++ (crlf ++ rest)))
