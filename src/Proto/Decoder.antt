-- ===== src/Proto/Decoder.antt =====
-- watermelon-proto/src/proto/decoder/mod.rs: the decoder of what the server sends. The read buffer
-- is the list of its bytes.
pub mod Control
pub mod HeaderBlock
pub mod Machine
pub mod Framed
use watermelon.Prelude.{ℕ, ◌*◌, Option, Bytes}
use watermelon.Subject.{Subject}
use watermelon.StatusCode.{StatusCode, StatusCodeError}
use watermelon.SubscriptionId.{SubscriptionId}
use watermelon.Headers.Map.{HeaderMap}
use watermelon.Headers.Name.{HeaderNameValidateError}
use watermelon.Headers.Value.{HeaderValueValidateError}
use watermelon.Wire.Uint.{ParseUintError}

abbrev pub max_head_len : ℕ
max_head_len = 128 * 1024

abbrev pub max_msg_len : ℕ
max_msg_len = 128 * 1024 * 1024

pub data DecoderStatus : Type 0 where
  -- the number of bytes already searched for a line end
  control_line : ℕ → DecoderStatus
  -- the subscription, the subject, the reply subject, and the lengths of the headers and the payload
  headers : SubscriptionId → Subject → Option Subject → ℕ → ℕ → DecoderStatus
  -- the same, with the status code, its description and the headers, and the length of the payload
  payload :
      SubscriptionId
      → Subject
      → Option Subject
      → Option StatusCode
      → Option Bytes
      → HeaderMap
      → ℕ
      → DecoderStatus
  poisoned : DecoderStatus

pub data DecoderError : Type 0 where
  head_too_long : ℕ → DecoderError
  invalid_command invalid_msg_args_count invalid_hmsg_args_count : DecoderError
  subject_invalid_utf8 reply_subject_invalid_utf8 : DecoderError
  bad_subscription_id : ParseUintError → DecoderError
  invalid_header_length invalid_payload_length : ParseUintError → DecoderError
  invalid_total_length missing_head invalid_head invalid_header_line : DecoderError
  bad_status_code : StatusCodeError → DecoderError
  status_description_invalid_utf8 header_name_invalid_utf8 : DecoderError
  bad_header_name : HeaderNameValidateError → DecoderError
  bad_header_value : HeaderValueValidateError → DecoderError
  invalid_info invalid_error_message is_poisoned : DecoderError
