-- ===== src/Proto/Decoder/Machine.antt =====
-- `decode` of watermelon-proto/src/proto/decoder/mod.rs. One round of its loop is `step`; the three
-- units of fuel are the most rounds that a call makes, from a control line through a header block to
-- a payload. Each place where the crate `bytes` panics on a buffer that is too short is `panics`.
pub mod Total
pub mod Arguments
pub mod Frames
pub mod HeaderFrames
pub mod Feed
pub mod Waits
pub mod Resume
pub mod Fresh
pub mod Stale
use watermelon.Prelude.{
  ℕ, zero, suc, ◌+◌, ◌-◌, ◌^◌, min, Bool, false, not, ◌||◌, [], ◌∷◌, Option, none, some, Bytes,
  codes, take, drop, length, leb, ltb, ◌==◌, starts_with, if◌then◌else◌, Result, ok, err, ◌>>=◌,
  ok_or,
}
use watermelon.Crates.{Crates}
use watermelon.Wire.Lines.{find}
use watermelon.ServerError.{parse}
use watermelon.Subject.{Subject}
use watermelon.StatusCode.{StatusCode}
use watermelon.SubscriptionId.{SubscriptionId}
use watermelon.Headers.Map.{HeaderMap}
use watermelon.Proto.{ServerOp}
use watermelon.Proto
use watermelon.Proto.Decoder.{
  DecoderStatus, control_line, headers, payload, poisoned, DecoderError, head_too_long,
  invalid_command, invalid_info, invalid_error_message, is_poisoned, max_head_len,
}
use watermelon.Proto.Decoder.Control.{decode_msg, decode_hmsg}
use watermelon.Proto.Decoder.HeaderBlock.{decode_block, strip_prefix}

-- `StreamDecoder`: the status and the read buffer
pub record StreamDecoder : Type 0 where
  pub status : DecoderStatus
  pub read_buf : Bytes

-- `StreamDecoder::new`
unfoldable pub new : StreamDecoder
new = record { status = control_line 0; read_buf = [] }

pub data Round (I : Type 0) : Type 0 where
  continues : StreamDecoder → Round I
  returns : StreamDecoder → Result DecoderError (Option (ServerOp I)) → Round I
  panics : Round I

-- the branches on a control line
pub data Verb : Type 0 where
  msg hmsg ping pong plus_ok minus_err last_branches : Verb

-- the tests that choose the branch, in order
unfoldable pub verb : Bytes → Verb
verb line =
    if starts_with (codes "MSG ") line
    then msg
    else if starts_with (codes "HMSG ") line
    then hmsg
    else if starts_with (codes "PING") line
    then ping
    else if starts_with (codes "PONG") line
    then pong
    else if starts_with (codes "+OK") line
    then plus_ok
    else if starts_with (codes "-ERR ") line
    then minus_err
    else last_branches

-- the last byte is a quote
ends_with_quote : Bytes → Bool
ends_with_quote [] = false
ends_with_quote (c ∷ []) = c == 39
ends_with_quote (c ∷ d ∷ s) = ends_with_quote (d ∷ s)

-- `usize::saturating_add`
unfoldable pub saturating_add : ℕ → ℕ → ℕ
saturating_add a b = min (a + b) (2 ^ 64 - 1)

module _ {I C : Type 0} (crates : Crates I C) where
  -- the message of an `-ERR` line, which stands between quotes
  unfoldable pub error_line : Bytes → Result DecoderError (Option (ServerOp I))
  unfolding ends_with_quote parse
  error_line line =
      if ltb (length line) 2 || not (starts_with (39 ∷ []) line) || not (ends_with_quote line)
      then err invalid_error_message
      else let raw_message = take (length line - 2) (drop 1 line) in
        if crates.is_utf8 raw_message
        then ok (some (Proto.ServerOp.error (parse raw_message)))
        else err invalid_error_message

  -- the last two branches: an `INFO` line, or no known command
  unfoldable pub info_line : Option Bytes → Result DecoderError (Option (ServerOp I))
  info_line none = err invalid_command
  info_line (some json) = do
    info ← ok_or (crates.from_json json) invalid_info
    ok (some (Proto.ServerOp.info info))

  -- the arms that set the status and go on; an error leaves the status
  unfoldable pub enter : StreamDecoder → Result DecoderError DecoderStatus → Round I
  enter d (ok status) = continues (record d { status = status })
  enter d (err e) = returns d (err e)

  -- a whole line without its end, which is no longer in the buffer
  unfoldable pub dispatch_as : Verb → StreamDecoder → Bytes → Round I
  unfolding enter decode_msg decode_hmsg error_line info_line strip_prefix
  dispatch_as msg d line = enter d (decode_msg crates line)
  dispatch_as hmsg d line = enter d (decode_hmsg crates line)
  dispatch_as ping d line = returns d (ok (some Proto.ServerOp.ping))
  dispatch_as pong d line = returns d (ok (some Proto.ServerOp.pong))
  dispatch_as plus_ok d line = returns d (ok (some Proto.ServerOp.success))
  dispatch_as minus_err d line = returns d (error_line (drop 5 line))
  dispatch_as last_branches d line = returns d (info_line (strip_prefix (codes "INFO ") line))

  unfoldable pub dispatch : StreamDecoder → Bytes → Round I
  unfolding dispatch_as verb
  dispatch d line = dispatch_as (verb line) d line

  -- behind the search for a line end
  unfoldable pub on_line : StreamDecoder → Option ℕ → Round I
  unfolding dispatch
  on_line d none =
      let len = length d.read_buf in
      if ltb len max_head_len
      then returns (record d { status = control_line len }) (ok none)
      else returns d (err (head_too_long len))
  on_line d (some i) =
      if leb (i + 2) (length d.read_buf)
      then dispatch (record d { read_buf = drop (i + 2) d.read_buf }) (take i d.read_buf)
      else panics

  unfoldable pub step_line : StreamDecoder → ℕ → Round I
  unfolding on_line find
  step_line d last_bytes_read =
      if starts_with (codes "+OK\r\n") d.read_buf
      then returns (record d { read_buf = drop 5 d.read_buf }) (ok (some Proto.ServerOp.success))
      else if last_bytes_read == length d.read_buf
      then returns d (ok none)
      else on_line d (find crates d.read_buf)

  -- `decode_headers` has set the status to `Poisoned`, and sets it anew if the block is read
  unfoldable pub enter_payload :
      StreamDecoder
      → SubscriptionId
      → Subject
      → Option Subject
      → ℕ
      → Result DecoderError (Option StatusCode × Option Bytes × HeaderMap)
      → Round I
  enter_payload d id subject reply_subject payload_len (ok (code, description, map)) =
      continues
        (record d { status = payload id subject reply_subject code description map payload_len })
  enter_payload d id subject reply_subject payload_len (err e) = returns d (err e)

  unfoldable pub step_headers :
      StreamDecoder → SubscriptionId → Subject → Option Subject → ℕ → ℕ → Round I
  unfolding enter_payload decode_block
  step_headers d id subject reply_subject header_len payload_len =
      if ltb (length d.read_buf) header_len
      then returns d (ok none)
      else enter_payload (record { status = poisoned; read_buf = drop header_len d.read_buf }) id
          subject reply_subject payload_len (decode_block crates (take header_len d.read_buf))

  -- The payload and its line end are cut off the buffer.
  unfoldable pub step_payload :
      StreamDecoder
      → SubscriptionId
      → Subject
      → Option Subject
      → Option StatusCode
      → Option Bytes
      → HeaderMap
      → ℕ
      → Round I
  unfolding saturating_add
  step_payload d id subject reply_subject code description map payload_len =
      if ltb (length d.read_buf) (saturating_add payload_len 2)
      then returns d (ok none)
      else if ltb (length d.read_buf) (payload_len + 2)
      then panics
      else returns
          (record { status = control_line 0; read_buf = drop 2 (drop payload_len d.read_buf) })
          (ok (
            some (
              Proto.ServerOp.message (record {
                status_code = code;
                status_description = description;
                subscription_id = id;
                base = record {
                  subject = subject;
                  reply_subject = reply_subject;
                  headers = map;
                  payload = take payload_len d.read_buf;
                };
              }))))

  unfoldable pub step_in : DecoderStatus → StreamDecoder → Round I
  unfolding step_line step_headers step_payload
  step_in (control_line last_bytes_read) d = step_line d last_bytes_read
  step_in (headers id subject reply_subject header_len payload_len) d =
      step_headers d id subject reply_subject header_len payload_len
  step_in (payload id subject reply_subject code description map payload_len) d =
      step_payload d id subject reply_subject code description map payload_len
  step_in poisoned d = returns d (err is_poisoned)

  -- one round of the loop
  unfoldable pub step : StreamDecoder → Round I
  unfolding step_in
  step d = step_in d.status d

  -- `none`: it panics, or does not return within the rounds
  unfoldable pub rounds :
      ℕ → StreamDecoder → Option (StreamDecoder × Result DecoderError (Option (ServerOp I)))
  unfolding step
  rounds zero d = none
  rounds (suc n) d = elim (step d) [
    | continues d' ↦ rounds n d'
    | returns d' r ↦ some (d', r)
    | panics ↦ none
  ]

  unfoldable pub decode :
      StreamDecoder → Option (StreamDecoder × Result DecoderError (Option (ServerOp I)))
  unfolding rounds
  decode d = rounds 3 d
