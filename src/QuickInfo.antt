-- ===== src/QuickInfo.antt =====
-- watermelon/src/client/quick_info.rs, built with the feature `non-standard-zstd`. The `AtomicU32` is
-- its value; one operation reads or changes it at a time. Bit `k` of a value is the parity of its
-- quotient by `2 ^ k`.
use watermelon.Prelude.{
  ℕ, ◌+◌, ◌-◌, ◌/◌, ◌%◌, ◌^◌, ◌==◌, Bool, true, false, if◌then◌else◌, ◌≡◌, refl,
}

pub record QuickInfo : Type 0 where
  pub is_connected : Bool
  pub is_zstd_compressed : Bool
  pub is_lameduck : Bool
  pub is_failed_unsubscribe : Bool

pub record RawQuickInfo : Type 0 where
  pub bits : ℕ

unfoldable pub has_bit : ℕ → ℕ → Bool
has_bit k n = ((n / 2 ^ k) % 2) == 1

-- `|=` and `fetch_or` with the mask of one bit
unfoldable pub set_bit : ℕ → ℕ → ℕ
unfolding has_bit
set_bit k n = if has_bit k n then n else n + 2 ^ k

-- `fetch_and` with the complement of such a mask
unfoldable pub clear_bit : ℕ → ℕ → ℕ
unfolding has_bit
clear_bit k n = if has_bit k n then n - 2 ^ k else n

abbrev is_connected_bit : ℕ
is_connected_bit = 0

abbrev is_zstd_compressed_bit : ℕ
is_zstd_compressed_bit = 1

abbrev is_lameduck_bit : ℕ
is_lameduck_bit = 2

abbrev is_failed_unsubscribe_bit : ℕ
is_failed_unsubscribe_bit = 31

or_bit : Bool → ℕ → ℕ → ℕ
unfolding set_bit
or_bit flag k n = if flag then set_bit k n else n

unfoldable pub encode : QuickInfo → ℕ
unfolding or_bit
encode q = or_bit q.is_failed_unsubscribe is_failed_unsubscribe_bit (
    or_bit q.is_lameduck is_lameduck_bit (
      or_bit q.is_zstd_compressed is_zstd_compressed_bit
        (or_bit q.is_connected is_connected_bit 0)))

unfoldable pub decode : ℕ → QuickInfo
unfolding has_bit
decode val = record {
  is_connected = has_bit is_connected_bit val;
  is_zstd_compressed = has_bit is_zstd_compressed_bit val;
  is_lameduck = has_bit is_lameduck_bit val;
  is_failed_unsubscribe = has_bit is_failed_unsubscribe_bit val;
}

-- `RawQuickInfo::new`
unfoldable pub new : RawQuickInfo
unfolding encode
new = record {
  bits = encode (record {
    is_connected = false;
    is_zstd_compressed = false;
    is_lameduck = false;
    is_failed_unsubscribe = false;
  });
}

unfoldable pub get : RawQuickInfo → QuickInfo
unfolding decode
get raw = decode raw.bits

unfoldable pub store : (QuickInfo → QuickInfo) → RawQuickInfo → RawQuickInfo
unfolding get encode
store f raw = record { bits = encode (f (get raw)) }

store_bit : ℕ → Bool → RawQuickInfo → RawQuickInfo
unfolding set_bit clear_bit
store_bit k val raw = record { bits = if val then set_bit k raw.bits else clear_bit k raw.bits }

unfoldable pub store_is_connected : Bool → RawQuickInfo → RawQuickInfo
unfolding store_bit
store_is_connected = store_bit is_connected_bit

unfoldable pub store_is_lameduck : Bool → RawQuickInfo → RawQuickInfo
unfolding store_bit
store_is_lameduck = store_bit is_lameduck_bit

unfoldable pub store_is_failed_unsubscribe : Bool → RawQuickInfo → RawQuickInfo
unfolding store_bit
store_is_failed_unsubscribe = store_bit is_failed_unsubscribe_bit

abbrev flags : Bool → Bool → Bool → Bool → QuickInfo
flags a b c d = record {
  is_connected = a;
  is_zstd_compressed = b;
  is_lameduck = c;
  is_failed_unsubscribe = d;
}

both : (Q : Bool → Type 0) → Q false → Q true → (b : Bool) → Q b
both Q off on false = off
both Q off on true = on

-- What holds for each of the flags holds for all that they can be.
all_flags :
    (P : Bool → Bool → Bool → Bool → Type 0)
    → P false false false false
    → P false false false true
    → P false false true false
    → P false false true true
    → P false true false false
    → P false true false true
    → P false true true false
    → P false true true true
    → P true false false false
    → P true false false true
    → P true false true false
    → P true false true true
    → P true true false false
    → P true true false true
    → P true true true false
    → P true true true true
    → (a b c d : Bool) → P a b c d
all_flags P h0 h1 h2 h3 h4 h5 h6 h7 h8 h9 h10 h11 h12 h13 h14 h15 a b c d =
    both (λ a. P a b c d)
      (both (λ b. P false b c d)
        (both (λ c. P false false c d) (both (λ d. P false false false d) h0 h1 d)
          (both (λ d. P false false true d) h2 h3 d) c)
        (both (λ c. P false true c d) (both (λ d. P false true false d) h4 h5 d)
          (both (λ d. P false true true d) h6 h7 d) c)
        b)
      (both (λ b. P true b c d)
        (both (λ c. P true false c d) (both (λ d. P true false false d) h8 h9 d)
          (both (λ d. P true false true d) h10 h11 d) c)
        (both (λ c. P true true c d) (both (λ d. P true true false d) h12 h13 d)
          (both (λ d. P true true true d) h14 h15 d) c)
        b)
      a

-- Any flags are read back from their encoding.
pub decode-encode : (q : QuickInfo) → decode (encode q) ≡ q
unfolding decode encode
decode-encode q =
    all_flags (λ a b c d. decode (encode (flags a b c d)) ≡ flags a b c d) refl refl refl refl refl
      refl refl refl refl refl refl refl refl refl refl refl q.is_connected q.is_zstd_compressed
      q.is_lameduck q.is_failed_unsubscribe

-- Each single store changes its own flag and no other, from any flags that were stored before.
pub get-store_flag :
    (q : QuickInfo) (val : Bool)
    → let raw : RawQuickInfo = record { bits = encode q } in
      (get (store_is_connected val raw) ≡ record q { is_connected = val })
      × (get (store_is_lameduck val raw) ≡ record q { is_lameduck = val })
      × (get (store_is_failed_unsubscribe val raw) ≡ record q { is_failed_unsubscribe = val })
unfolding get store_is_connected store_is_lameduck store_is_failed_unsubscribe encode
get-store_flag q true =
    all_flags
      (λ a b c d.
        let raw : RawQuickInfo = record { bits = encode (flags a b c d) } in
        (get (store_is_connected true raw) ≡ flags true b c d)
        × (get (store_is_lameduck true raw) ≡ flags a b true d)
        × (get (store_is_failed_unsubscribe true raw) ≡ flags a b c true))
      (refl, refl, refl) (refl, refl, refl) (refl, refl, refl) (refl, refl, refl) (refl, refl, refl)
      (refl, refl, refl) (refl, refl, refl) (refl, refl, refl) (refl, refl, refl) (refl, refl, refl)
      (refl, refl, refl) (refl, refl, refl) (refl, refl, refl) (refl, refl, refl) (refl, refl, refl)
      (refl, refl, refl) q.is_connected q.is_zstd_compressed q.is_lameduck q.is_failed_unsubscribe
get-store_flag q false =
    all_flags
      (λ a b c d.
        let raw : RawQuickInfo = record { bits = encode (flags a b c d) } in
        (get (store_is_connected false raw) ≡ flags false b c d)
        × (get (store_is_lameduck false raw) ≡ flags a b false d)
        × (get (store_is_failed_unsubscribe false raw) ≡ flags a b c false))
      (refl, refl, refl) (refl, refl, refl) (refl, refl, refl) (refl, refl, refl) (refl, refl, refl)
      (refl, refl, refl) (refl, refl, refl) (refl, refl, refl) (refl, refl, refl) (refl, refl, refl)
      (refl, refl, refl) (refl, refl, refl) (refl, refl, refl) (refl, refl, refl) (refl, refl, refl)
      (refl, refl, refl) q.is_connected q.is_zstd_compressed q.is_lameduck q.is_failed_unsubscribe
