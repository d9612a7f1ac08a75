-- ===== src/Proto/Decoder/Control.antt =====
-- `decode_msg` and `decode_hmsg` of watermelon-proto/src/proto/decoder/mod.rs: the arguments of the
-- two control lines that announce a message.
use watermelon.Prelude.{
  ℕ, ◌-◌, Option, none, some, Bytes, drop, ltb, if◌then◌else◌, Result, ok, err, ◌>>=◌, map_err,
  ok_or,
}
use watermelon.Crates.{Crates}
use watermelon.Wire.Uint.{overflow, parse_usize, parse_unsigned}
use watermelon.Wire.Spaces.{next}
use watermelon.Subject.{Subject, from_dangerous_value}
use watermelon.SubscriptionId.{from_ascii_bytes}
use watermelon.Headers.Map.{new}
use watermelon.Proto.Decoder.{
  DecoderStatus, headers, payload, DecoderError, max_msg_len, invalid_msg_args_count,
  invalid_hmsg_args_count, subject_invalid_utf8, reply_subject_invalid_utf8, bad_subscription_id,
  invalid_header_length, invalid_payload_length, invalid_total_length,
}

-- the five calls of `chunks.next()`, and the arms of the match on them
unfoldable pub msg_args :
    Option Bytes
    → Option Bytes
    → Option Bytes
    → Option Bytes
    → Option Bytes
    → Option (Bytes × Bytes × Option Bytes × Bytes)
msg_args (some subject) (some id) (some reply_to) (some len) none =
    some (subject, id, some reply_to, len)
msg_args (some subject) (some id) (some len) none none = some (subject, id, none, len)
msg_args _ _ _ _ _ = none

unfoldable pub hmsg_args :
    Option Bytes
    → Option Bytes
    → Option Bytes
    → Option Bytes
    → Option Bytes
    → Option Bytes
    → Option (Bytes × Bytes × Option Bytes × Bytes × Bytes)
hmsg_args (some subject) (some id) (some reply_to) (some header_len) (some total_len) none =
    some (subject, id, some reply_to, header_len, total_len)
hmsg_args (some subject) (some id) (some header_len) (some total_len) none none =
    some (subject, id, none, header_len, total_len)
hmsg_args _ _ _ _ _ _ = none

-- `checked_sub`
unfoldable pub checked_sub : ℕ → ℕ → Option ℕ
checked_sub a b = if ltb a b then none else some (a - b)

-- A declared length above the limit is reported as an overflow.
unfoldable pub parse_bounded : Bytes → Result DecoderError ℕ
unfolding parse_unsigned
parse_bounded buf = do
  len ← map_err invalid_payload_length (parse_usize buf)
  if ltb max_msg_len len then err (invalid_payload_length overflow) else ok len

module _ {I C : Type 0} (crates : Crates I C) where
  -- `ByteString::try_from`
  unfoldable pub to_text : DecoderError → Bytes → Result DecoderError Bytes
  to_text e bytes = if crates.is_utf8 bytes then ok bytes else err e

  -- the reply subject, if there is one
  unfoldable pub reply_text : Option Bytes → Result DecoderError (Option Subject)
  unfolding to_text from_dangerous_value
  reply_text none = ok none
  reply_text (some reply_to) = do
    text ← to_text reply_subject_invalid_utf8 reply_to
    ok (some (from_dangerous_value text))

  unfoldable pub split_msg : Bytes → Option (Bytes × Bytes × Option Bytes × Bytes)
  unfolding msg_args next
  split_msg bytes =
      let (a, r1) = next crates bytes in
      let (b, r2) = next crates r1 in
      let (c, r3) = next crates r2 in
      let (d, r4) = next crates r3 in let (e, _) = next crates r4 in msg_args a b c d e

  unfoldable pub split_hmsg : Bytes → Option (Bytes × Bytes × Option Bytes × Bytes × Bytes)
  unfolding hmsg_args next
  split_hmsg bytes =
      let (a, r1) = next crates bytes in
      let (b, r2) = next crates r1 in
      let (c, r3) = next crates r2 in
      let (d, r4) = next crates r3 in
      let (e, r5) = next crates r4 in let (f, _) = next crates r5 in hmsg_args a b c d e f

  -- the fields of a `MSG` line once it is split
  unfoldable pub read_msg : Bytes × Bytes × Option Bytes × Bytes → Result DecoderError DecoderStatus
  unfolding to_text reply_text parse_bounded from_ascii_bytes from_dangerous_value
  read_msg (subject, id, reply_to, len) = do
    subject_text ← to_text subject_invalid_utf8 subject
    subscription_id ← map_err bad_subscription_id (from_ascii_bytes id)
    reply_subject ← reply_text reply_to
    payload_len ← parse_bounded len
    ok (
        payload subscription_id (from_dangerous_value subject_text) reply_subject none none new
          payload_len)

  unfoldable pub decode_msg : Bytes → Result DecoderError DecoderStatus
  unfolding split_msg read_msg
  decode_msg control_line = do
    args ← ok_or (split_msg (drop 4 control_line)) invalid_msg_args_count
    read_msg args

  -- the fields of an `HMSG` line once it is split
  unfoldable pub read_hmsg :
      Bytes × Bytes × Option Bytes × Bytes × Bytes → Result DecoderError DecoderStatus
  unfolding to_text reply_text parse_bounded from_ascii_bytes from_dangerous_value checked_sub
  read_hmsg (subject, id, reply_to, header, total) = do
    subject_text ← to_text subject_invalid_utf8 subject
    subscription_id ← map_err bad_subscription_id (from_ascii_bytes id)
    reply_subject ← reply_text reply_to
    header_len ← map_err invalid_header_length (parse_usize header)
    total_len ← parse_bounded total
    payload_len ← ok_or (checked_sub total_len header_len) invalid_total_length
    ok (
        headers subscription_id (from_dangerous_value subject_text) reply_subject header_len
          payload_len)

  unfoldable pub decode_hmsg : Bytes → Result DecoderError DecoderStatus
  unfolding split_hmsg read_hmsg
  decode_hmsg control_line = do
    args ← ok_or (split_hmsg (drop 5 control_line)) invalid_hmsg_args_count
    read_hmsg args
