-- ===== src/Tests/Instance.antt =====
-- Functions with the documented behaviour of the third-party crates, to evaluate the model with.
use watermelon.Prelude.{
  ℕ, zero, suc, ◌+◌, ◌*◌, ◌/◌, ◌%◌, ◌-◌, ◌≤◌, ◌<◌, ◌==◌, ◌||◌, ◌&&◌, Bool, true, [], ◌∷◌, ◌++◌,
  some, Bytes, to_lower, map, All, All-append, is_digit, ltb, if◌then◌else◌, ◌≡◌, ◌≢◌, refl, ◌∙◌,
  arith, Ordering, Bool-cases, inl, inr,
}
use watermelon.Crates.{Crates, IsLawful, index_where, index_of}
use watermelon.Wire.Uint.Laws.{value}
use watermelon.OrdMap.Order.{IsOrder}
use watermelon.Handler.{bytes_cmp}

-- decimal digits; each round drops one
unfoldable pub print : ℕ → ℕ → Bytes
print zero n = (48 + n % 10) ∷ []
print (suc fuel) n =
    let front = print fuel (n / 10) in
    if ltb n 10 then (48 + n) ∷ [] else front ++ ((48 + n % 10) ∷ [])

print_digits : (fuel n : ℕ) → All (λ c. is_digit c ≡ true) (print fuel n)
unfolding print
print_digits zero n = ground arith
print_digits (suc fuel) n = elim (Bool-cases (ltb n 10)) [
  | inl h ↦ rw h (ground arith, tt)
  | inr h ↦ rw h (
      All-append (λ c. is_digit c ≡ true) (print fuel (n / 10)) ((48 + n % 10) ∷ [])
        (print_digits fuel (n / 10)) (ground arith, tt))
]

append_one : (s : Bytes) (c : ℕ) → s ++ c ∷ [] ≢ []
append_one [] c h = cc
append_one (d ∷ s) c h = cc

print_ne_nil : (fuel n : ℕ) → print fuel n ≢ []
unfolding print
print_ne_nil zero n h = cc
print_ne_nil (suc fuel) n h = elim (Bool-cases (ltb n 10)) [
  | inl less ↦ let shown = rw (less, print) at h in cc
  | inr more ↦ append_one (print fuel (n / 10)) (48 + n % 10) (rw (more, print) at h)
]

value-append : (a c : ℕ) (s : Bytes) → value a (s ++ c ∷ []) ≡ value a s * 10 + (c - 48)
value-append a c [] = refl
value-append a c (d ∷ s) = value-append (a * 10 + (d - 48)) c s

value-print : (fuel n : ℕ) → n ≤ fuel → value 0 (print fuel n) ≡ n
unfolding print
value-print zero n h = omega arith
value-print (suc fuel) n h = elim (Bool-cases (ltb n 10)) [
  | inl less ↦ rw less (omega arith)
  | inr more ↦
      let large : 10 ≤ n = ground arith in
      let front = value-print fuel (n / 10) (omega arith) in
      rw more (value-append 0 (48 + n % 10) (print fuel (n / 10)) ∙ omega (arith, front))
]

unfoldable pub is_ascii : Bytes → Bool
is_ascii [] = true
is_ascii (c ∷ s) = ltb c 128 && is_ascii s

is_ascii_lem : (s : Bytes) → All (λ c. c < 128) s → is_ascii s ≡ true
unfolding is_ascii
is_ascii_lem [] h = refl
is_ascii_lem (c ∷ s) (hc, h) = ground (arith, is_ascii_lem s h)

abbrev pub crates : Crates Bytes Bytes
crates = record {
  memchr = λ b s. index_where (λ c. c == b) s;
  memchr2 = λ a b s. index_where (λ c. c == a || c == b) s;
  memmem = index_of;
  is_utf8 = is_ascii;
  itoa = λ n. print n n;
  unicase = λ a b. bytes_cmp (map to_lower a) (map to_lower b);
  from_json = some;
  to_json = λ c. c;
}

pub crates-IsLawful : IsLawful crates
crates-IsLawful = record {
  memchr_first = λ b s. refl;
  memchr2_first = λ a b s. refl;
  memmem_first = λ needle s. refl;
  ascii_utf8 = is_ascii_lem;
  itoa_digits = λ n. print_digits n n;
  itoa_ne_nil = λ n. print_ne_nil n n;
  itoa_value = λ n. value-print n n (omega arith);
}

bytes_eq_refl : (a : Bytes) → bytes_cmp a a ≡ Ordering.eq
unfolding bytes_cmp
bytes_eq_refl [] = refl
bytes_eq_refl (x ∷ a) = ground (arith, bytes_eq_refl a)

bytes_eq_sym : (a b : Bytes) → bytes_cmp a b ≡ Ordering.eq → bytes_cmp b a ≡ Ordering.eq
unfolding bytes_cmp
bytes_eq_sym [] [] h = refl
bytes_eq_sym [] (y ∷ b) h = cc
bytes_eq_sym (x ∷ a) [] h = cc
bytes_eq_sym (x ∷ a) (y ∷ b) h = ground (arith, bytes_eq_sym a b)

bytes_eq_left : (a b c : Bytes) → bytes_cmp a b ≡ Ordering.eq → bytes_cmp a c ≡ bytes_cmp b c
unfolding bytes_cmp
bytes_eq_left [] [] c h = refl
bytes_eq_left [] (y ∷ b) c h = cc
bytes_eq_left (x ∷ a) [] c h = cc
bytes_eq_left (x ∷ a) (y ∷ b) [] h = refl
bytes_eq_left (x ∷ a) (y ∷ b) (z ∷ c) h = ground (arith, bytes_eq_left a b c)

bytes_lt_trans :
    (a b c : Bytes)
    → bytes_cmp a b ≡ Ordering.lt
    → bytes_cmp b c ≡ Ordering.lt
    → bytes_cmp a c ≡ Ordering.lt
unfolding bytes_cmp
bytes_lt_trans [] [] c h k = cc
bytes_lt_trans [] (y ∷ b) [] h k = cc
bytes_lt_trans [] (y ∷ b) (z ∷ c) h k = refl
bytes_lt_trans (x ∷ a) [] c h k = cc
bytes_lt_trans (x ∷ a) (y ∷ b) [] h k = cc
bytes_lt_trans (x ∷ a) (y ∷ b) (z ∷ c) h k = ground (arith, bytes_lt_trans a b c)

bytes_gt_lt : (a b : Bytes) → bytes_cmp a b ≡ Ordering.gt → bytes_cmp b a ≡ Ordering.lt
unfolding bytes_cmp
bytes_gt_lt [] [] h = cc
bytes_gt_lt [] (y ∷ b) h = cc
bytes_gt_lt (x ∷ a) [] h = refl
bytes_gt_lt (x ∷ a) (y ∷ b) h = ground (arith, bytes_gt_lt a b)

bytes_lt_gt : (a b : Bytes) → bytes_cmp a b ≡ Ordering.lt → bytes_cmp b a ≡ Ordering.gt
unfolding bytes_cmp
bytes_lt_gt [] [] h = cc
bytes_lt_gt [] (y ∷ b) h = refl
bytes_lt_gt (x ∷ a) [] h = cc
bytes_lt_gt (x ∷ a) (y ∷ b) h = ground (arith, bytes_lt_gt a b)

pub bytes_cmp-IsOrder : IsOrder bytes_cmp
bytes_cmp-IsOrder = record {
  eq_refl = bytes_eq_refl;
  eq_sym = bytes_eq_sym;
  eq_left = bytes_eq_left;
  lt_trans = bytes_lt_trans;
  gt_lt = bytes_gt_lt;
  lt_gt = bytes_lt_gt;
}
