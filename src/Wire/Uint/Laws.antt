-- ===== src/Wire/Uint/Laws.antt =====
-- What `parse_unsigned` accepts, and with which error it refuses the rest.
use watermelon.Prelude.{
  ℕ, ◌+◌, ◌-◌, ◌*◌, ◌≤◌, ◌<◌, [], ◌∷◌, Bytes, is_digit, ◌≡◌, ◌≢◌, refl, sym, true, arith, ok, err,
  All,
}
use watermelon.Wire.Uint.{overflow, digits_from, parse_unsigned}

abbrev pub IsDigit : ℕ → Type 0
IsDigit c = is_digit c ≡ true

-- the number that more digits spell behind `read`, with no bound
abbrev pub value : ℕ → Bytes → ℕ
value read [] = read
value read (digit ∷ more) = value (read * 10 + (digit - b'0')) more

value-grows : (read : ℕ) (more : Bytes) → read ≤ value read more
value-grows read [] = omega arith
value-grows read (digit ∷ more) = omega (arith, value-grows (read * 10 + (digit - b'0')) more)

-- an accepted buffer
digits_from-ok :
    (more : Bytes) (bound read result : ℕ)
    → digits_from bound read more ≡ ok result
    → read ≤ bound
    → (value read more ≡ result) × (result ≤ bound) × All IsDigit more
unfolding digits_from
digits_from-ok [] bound read result accepted le = ground arith
digits_from-ok (digit ∷ more) bound read result accepted le =
    ground (arith, digits_from-ok more bound (read * 10 + (digit - b'0')) result)

-- digits of a number within the bound, and of one beyond it
digits_from-digits :
    (more : Bytes) (bound read : ℕ)
    → read ≤ bound
    → All IsDigit more
    → (value read more ≤ bound → digits_from bound read more ≡ ok (value read more))
      × (bound < value read more → digits_from bound read more ≡ err overflow)
unfolding digits_from
digits_from-digits [] bound read le digits = ((λ _. refl), λ beyond. absurd (omega arith))
digits_from-digits (digit ∷ more) bound read le (here, behind) =
    let next = read * 10 + (digit - b'0') in
    (
      (λ within. ground (arith, digits_from-digits more bound next, value-grows next more)),
      λ beyond. ground (arith, digits_from-digits more bound next),
    )

-- An accepted buffer is one or more decimal digits, and the result is the number that they spell,
-- which fits the type: nothing wraps around.
pub parse_unsigned_sound :
    (bound : ℕ) (buf : Bytes) {result : ℕ}
    → parse_unsigned bound buf ≡ ok result
    → (buf ≢ []) × All IsDigit buf × (result ≡ value 0 buf) × (result ≤ bound)
unfolding parse_unsigned
parse_unsigned_sound bound [] accepted = cc
parse_unsigned_sound bound (digit ∷ more) accepted =
    let parts = digits_from-ok (digit ∷ more) bound 0 _ accepted (omega arith) in
    ((cc), parts.2, sym parts.0, parts.1)

-- Every buffer of one or more decimal digits is read as the number that it spells if that number
-- fits the type, and is refused with the overflow error if it does not.
pub parse_unsigned_complete :
    (bound : ℕ) (buf : Bytes)
    → buf ≢ []
    → All IsDigit buf
    → (value 0 buf ≤ bound → parse_unsigned bound buf ≡ ok (value 0 buf))
      × (bound < value 0 buf → parse_unsigned bound buf ≡ err overflow)
unfolding parse_unsigned
parse_unsigned_complete bound [] ne = absurd (ne refl)
parse_unsigned_complete bound (digit ∷ more) ne =
    digits_from-digits (digit ∷ more) bound 0 (omega arith)
