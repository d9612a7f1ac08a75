-- ===== src/Headers/Name.antt =====
-- watermelon-proto/src/headers/name.rs. A name is its text; that two names which differ in case are
-- one key is the comparison of the crate `unicase`.
use watermelon.Prelude.{
  ℕ, ◌==◌, ◌||◌, Bool, false, [], ◌∷◌, Bytes, is_empty, leb, if◌then◌else◌, Result, ok, err, ◌>>=◌,
  All, ◌≡◌, ◌≢◌, ◌↔◌, refl, arith,
}

pub record HeaderName : Type 0 where
  pub text : Bytes

pub data HeaderNameValidateError : Type 0 where
  empty illegal_character : HeaderNameValidateError

abbrev pub is_illegal : ℕ → Bool
is_illegal b = leb 128 b || b == 13 || b == 10 || b == b':'

-- the loop over the bytes: whether it returns early
unfoldable pub has_illegal : Bytes → Bool
has_illegal [] = false
has_illegal (b ∷ s) = is_illegal b || has_illegal s

unfoldable pub validate_header_name : Bytes → Result HeaderNameValidateError (Unit {0})
unfolding has_illegal
validate_header_name name =
    if is_empty name then err empty else if has_illegal name then err illegal_character else ok tt

unfoldable pub from_dangerous_value : Bytes → HeaderName
from_dangerous_value value = record { text = value }

unfoldable pub try_from : Bytes → Result HeaderNameValidateError HeaderName
unfolding validate_header_name from_dangerous_value
try_from value = do _ ← validate_header_name value; ok (from_dangerous_value value)

-- A text that the wire format of a header can carry as a name.
abbrev pub IsName : Bytes → Type 0
IsName s = (s ≢ []) × All (λ c. is_illegal c ≡ false) s

has_illegal_iff : (s : Bytes) → (has_illegal s ≡ false) ↔ All (λ c. is_illegal c ≡ false) s
unfolding has_illegal
has_illegal_iff [] = ground arith
has_illegal_iff (c ∷ s) = ground (arith, has_illegal_iff s)

pub try_from-IsName : (s : Bytes) → IsName s → try_from s ≡ ok (record { text = s })
unfolding try_from
try_from-IsName [] (ne, h) = absurd (ne refl)
try_from-IsName (c ∷ s) (ne, h) = ground (arith, has_illegal_iff (c ∷ s))

-- A header name is accepted exactly if it has a byte and all its bytes are ASCII, with no line end and
-- no colon among them; the text is kept.
pub try_from-IsName_iff :
    (s : Bytes) (n : HeaderName) → (try_from s ≡ ok n) ↔ (IsName s × (n.text ≡ s))
unfolding try_from
try_from-IsName_iff [] n = ground arith
try_from-IsName_iff (c ∷ s) n = ground (arith, has_illegal_iff (c ∷ s))
