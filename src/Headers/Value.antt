-- ===== src/Headers/Value.antt =====
-- watermelon-proto/src/headers/value.rs: the checked constructors.
use watermelon.Prelude.{
  ℕ, ◌==◌, ◌||◌, Bool, false, [], ◌∷◌, Bytes, if◌then◌else◌, Result, ok, err, ◌>>=◌, All, ◌≡◌, ◌↔◌,
  arith,
}

pub record HeaderValue : Type 0 where
  pub inner : Bytes

pub data HeaderValueValidateError : Type 0 where
  illegal_character : HeaderValueValidateError

abbrev pub is_line_end : ℕ → Bool
is_line_end b = b == 13 || b == 10

unfoldable pub validate_header_value_bytes : Bytes → Result HeaderValueValidateError (Unit {0})
validate_header_value_bytes [] = ok tt
validate_header_value_bytes (b ∷ value) =
    if is_line_end b then err illegal_character else validate_header_value_bytes value

unfoldable pub from_dangerous_value : Bytes → HeaderValue
from_dangerous_value value = record { inner = value }

unfoldable pub from_bytes : Bytes → Result HeaderValueValidateError HeaderValue
unfolding validate_header_value_bytes from_dangerous_value
from_bytes value = do _ ← validate_header_value_bytes value; ok (from_dangerous_value value)

abbrev pub IsValue : Bytes → Type 0
IsValue = All (λ c. is_line_end c ≡ false)

validate_iff : (s : Bytes) → (validate_header_value_bytes s ≡ ok tt) ↔ IsValue s
unfolding validate_header_value_bytes
validate_iff [] = ground arith
validate_iff (c ∷ s) = ground (arith, validate_iff s)

pub from_bytes-IsValue : (s : Bytes) → IsValue s → from_bytes s ≡ ok (record { inner = s })
unfolding from_bytes
from_bytes-IsValue s h = ground (arith, validate_iff s)

-- A header value is accepted exactly if no byte of it is a carriage return or a line feed; the bytes
-- are kept.
pub from_bytes-IsValue_iff :
    (s : Bytes) (v : HeaderValue) → (from_bytes s ≡ ok v) ↔ (IsValue s × (v.inner ≡ s))
unfolding from_bytes
from_bytes-IsValue_iff s v = ground (arith, validate_iff s)
