-- ===== src/StatusCode.antt =====
-- watermelon-proto/src/status_code.rs. The number is a non-zero `u16`.
use watermelon.Prelude.{
  [], ◌∷◌, ◌≡◌, ◌≢◌, ◌↔◌, arith, All, length, ℕ, Bytes, if◌then◌else◌, not, ◌==◌, ◌&&◌, leb, ltb,
  length, Result, ok, err, ◌>>=◌, map_err,
}
use watermelon.Wire.Uint.{parse_u16, parse_unsigned}
use watermelon.Wire.Uint.Laws.{IsDigit, value, parse_unsigned_sound, parse_unsigned_complete}

pub record StatusCode : Type 0 where
  pub code : ℕ

pub data StatusCodeError : Type 0 where
  invalid : StatusCodeError

-- `TryFrom<u16>`; `NonZero::new` succeeds in that range
unfoldable pub try_from : ℕ → Result StatusCodeError StatusCode
try_from value =
    if leb 100 value && ltb value 1000 then ok (record { code = value }) else err invalid

-- the value of the conversion into `NonZero<u16>` is kept without a range check
unfoldable pub from_ascii_bytes : Bytes → Result StatusCodeError StatusCode
unfolding parse_unsigned
from_ascii_bytes buf = if not (length buf == 3) then err invalid else do
  value ← map_err (λ _. invalid) (parse_u16 buf)
  if value == 0 then err invalid else ok (record { code = value })

three_digits :
    (a b c : ℕ)
    → IsDigit a
    → IsDigit b
    → IsDigit c
    → parse_u16 (a ∷ b ∷ c ∷ []) ≡ ok (value 0 (a ∷ b ∷ c ∷ []))
three_digits a b c ha hb hc =
    let (fits, over) =
      parse_unsigned_complete 65535 (a ∷ b ∷ c ∷ []) (λ q. absurd (cc)) (ha, (hb, (hc, tt))) in
    fits (ground arith)

-- Three decimal digits that do not spell zero are accepted as the number that they spell, also below
-- 100; nothing else is accepted.
pub from_ascii_bytes_iff :
    (s : Bytes) (r : StatusCode)
    → (from_ascii_bytes s ≡ ok r)
      ↔ ((length s ≡ 3) × All IsDigit s × (r.code ≡ value 0 s) × (r.code ≢ 0))
unfolding from_ascii_bytes
from_ascii_bytes_iff (a ∷ b ∷ c ∷ []) r =
    ground (arith, three_digits a b c, parse_unsigned_sound 65535 (a ∷ b ∷ c ∷ []))
from_ascii_bytes_iff _ r = ground arith
