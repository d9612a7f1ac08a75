-- ===== src/ServerError.antt =====
-- watermelon-proto/src/server_error.rs
pub mod Laws
use mathlib.Core.List.{reverse}
use watermelon.Prelude.{
  ℕ, zero, suc, Bool, true, false, ◌&&◌, List, [], ◌∷◌, Option, none, some, Bytes, codes,
  starts_with, bytes_eq, to_lower, if◌then◌else◌, ltb, length, take, drop, map,
}

pub data ServerError : Type 0 where
  invalid_subject publish_permission_violation subscribe_permission_violation : ServerError
  unknown_protocol_operation connection_attempted_to_wrong_port : ServerError
  authorization_violation authorization_timeout invalid_client_protocol : ServerError
  maximum_control_line_exceeded parse_error tls_required stale_connection : ServerError
  maximum_connections_exceeded slow_consumer maximum_payload_violation : ServerError
  other : Bytes → ServerError

unfoldable pub is_fatal : ServerError → Option Bool
is_fatal invalid_subject = some false
is_fatal publish_permission_violation = some false
is_fatal subscribe_permission_violation = some false
is_fatal (other raw_message) = none
is_fatal _ = some true

-- The encodings of the characters with the Unicode property `White_Space`, by which `str::trim` goes.
abbrev white_space : List Bytes
white_space =
    (9 ∷ [])
    ∷ (10 ∷ [])
    ∷ (11 ∷ [])
    ∷ (12 ∷ [])
    ∷ (13 ∷ [])
    ∷ (32 ∷ [])
    ∷ (0xc2 ∷ 0x85 ∷ [])
    ∷ (0xc2 ∷ 0xa0 ∷ [])
    ∷ (0xe1 ∷ 0x9a ∷ 0x80 ∷ [])
    ∷ (0xe2 ∷ 0x80 ∷ 0x80 ∷ [])
    ∷ (0xe2 ∷ 0x80 ∷ 0x81 ∷ [])
    ∷ (0xe2 ∷ 0x80 ∷ 0x82 ∷ [])
    ∷ (0xe2 ∷ 0x80 ∷ 0x83 ∷ [])
    ∷ (0xe2 ∷ 0x80 ∷ 0x84 ∷ [])
    ∷ (0xe2 ∷ 0x80 ∷ 0x85 ∷ [])
    ∷ (0xe2 ∷ 0x80 ∷ 0x86 ∷ [])
    ∷ (0xe2 ∷ 0x80 ∷ 0x87 ∷ [])
    ∷ (0xe2 ∷ 0x80 ∷ 0x88 ∷ [])
    ∷ (0xe2 ∷ 0x80 ∷ 0x89 ∷ [])
    ∷ (0xe2 ∷ 0x80 ∷ 0x8a ∷ [])
    ∷ (0xe2 ∷ 0x80 ∷ 0xa8 ∷ [])
    ∷ (0xe2 ∷ 0x80 ∷ 0xa9 ∷ [])
    ∷ (0xe2 ∷ 0x80 ∷ 0xaf ∷ [])
    ∷ (0xe2 ∷ 0x81 ∷ 0x9f ∷ [])
    ∷ (0xe3 ∷ 0x80 ∷ 0x80 ∷ [])
    ∷ []

-- the length of the first listed text with which `s` begins, or 0
leading : List Bytes → Bytes → ℕ
leading [] s = 0
leading (w ∷ ws) s = if starts_with w s then length w else leading ws s

-- drops listed texts from the front; each round drops a byte or stops
strip_front : ℕ → List Bytes → Bytes → Bytes
unfolding leading
strip_front zero ws s = s
strip_front (suc n) ws s = elim (leading ws s) [
  | zero ↦ s
  | suc k ↦ strip_front n ws (drop (suc k) s)
]

trim_start : Bytes → Bytes
unfolding strip_front
trim_start s = strip_front (length s) white_space s

trim_end : Bytes → Bytes
unfolding strip_front
trim_end s = reverse (strip_front (length s) (map reverse white_space) (reverse s))

-- `str::trim`
unfoldable pub trim : Bytes → Bytes
unfolding trim_start trim_end
trim s = trim_end (trim_start s)

-- `eq_ignore_ascii_case`
unfoldable pub eq_ignore_ascii_case : Bytes → Bytes → Bool
eq_ignore_ascii_case a b = bytes_eq (map to_lower a) (map to_lower b)

-- the closure `matches_prefix`
unfoldable pub matches_prefix : Bytes → Bytes → Bool
unfolding eq_ignore_ascii_case
matches_prefix bytes needle =
    ltb (length needle) (length bytes) && eq_ignore_ascii_case (take (length needle) bytes) needle

-- The tests of `parse` on the trimmed message, in order: `none` is the last branch.
unfoldable pub classify : Bytes → Option ServerError
unfolding eq_ignore_ascii_case matches_prefix
classify m =
    let same = eq_ignore_ascii_case m in
    if same (codes "Invalid Subject")
    then some invalid_subject
    else if matches_prefix m (codes "Permissions Violation for Publish")
    then some publish_permission_violation
    else if matches_prefix m (codes "Permissions Violation for Subscription")
    then some subscribe_permission_violation
    else if same (codes "Unknown Protocol Operation")
    then some unknown_protocol_operation
    else if same (codes "Attempted To Connect To Route Port")
    then some connection_attempted_to_wrong_port
    else if same (codes "Authorization Violation")
    then some authorization_violation
    else if same (codes "Authorization Timeout")
    then some authorization_timeout
    else if same (codes "Invalid Client Protocol")
    then some invalid_client_protocol
    else if same (codes "Maximum Control Line Exceeded")
    then some maximum_control_line_exceeded
    else if same (codes "Parser Error")
    then some parse_error
    else if same (codes "Secure Connection - TLS Required")
    then some tls_required
    else if same (codes "Stale Connection")
    then some stale_connection
    else if same (codes "Maximum Connections Exceeded")
    then some maximum_connections_exceeded
    else if same (codes "Slow Consumer")
    then some slow_consumer
    else if same (codes "Maximum Payload Violation")
    then some maximum_payload_violation
    else none

or_other : Option ServerError → Bytes → ServerError
or_other none raw_message = other raw_message
or_other (some e) raw_message = e

unfoldable pub parse : Bytes → ServerError
unfolding trim classify or_other
parse raw_message = or_other (classify (trim raw_message)) raw_message
