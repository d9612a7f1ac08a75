-- ===== src/Wire/Uint.antt =====
-- watermelon-proto/src/util/uint.rs: the functions that the macro `parse_unsigned` makes for `u16`,
-- `u64` and `usize`; `bound` is the largest value of the type.
pub mod Laws
use watermelon.Prelude.{
  ℕ, ◌+◌, ◌-◌, ◌*◌, ◌^◌, [], ◌∷◌, Option, none, some, Bytes, leb, is_digit, not, if◌then◌else◌,
  Result, ok, err, ok_or, ◌>>=◌,
}

pub data ParseUintError : Type 0 where
  empty : ParseUintError
  invalid_byte : ℕ → ParseUintError
  overflow : ParseUintError

-- `checked_mul` and `checked_add` of an unsigned type whose largest value is `bound`
unfoldable pub checked : ℕ → ℕ → Option ℕ
checked bound n = if leb n bound then some n else none

-- the loop over the bytes, from the value so far
unfoldable pub digits_from : ℕ → ℕ → Bytes → Result ParseUintError ℕ
unfolding checked
digits_from bound val [] = ok val
digits_from bound val (b ∷ buf) = if not (is_digit b) then err (invalid_byte b) else do
  tens ← ok_or (checked bound (val * 10)) overflow
  next ← ok_or (checked bound (tens + (b - b'0'))) overflow
  digits_from bound next buf

unfoldable pub parse_unsigned : ℕ → Bytes → Result ParseUintError ℕ
unfolding digits_from
parse_unsigned bound [] = err empty
parse_unsigned bound (b ∷ buf) = digits_from bound 0 (b ∷ buf)

abbrev pub max_u16 : ℕ
max_u16 = 2 ^ 16 - 1

abbrev pub max_u64 : ℕ
max_u64 = 2 ^ 64 - 1

-- `usize` on the 64-bit targets
abbrev pub max_usize : ℕ
max_usize = 2 ^ 64 - 1

abbrev pub parse_u16 : Bytes → Result ParseUintError ℕ
parse_u16 = parse_unsigned max_u16

abbrev pub parse_u64 : Bytes → Result ParseUintError ℕ
parse_u64 = parse_unsigned max_u64

abbrev pub parse_usize : Bytes → Result ParseUintError ℕ
parse_usize = parse_unsigned max_usize
