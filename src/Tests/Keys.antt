-- ===== src/Tests/Keys.antt =====
-- The theorems on seeds and public keys at concrete crates: 22 filler characters in front of the
-- bytes stand for their text, and one key pair for all seeds of 32 bytes.
use watermelon.Prelude.{
  ℕ, zero, suc, ◌+◌, ◌%◌, ◌++◌, codes, ◌<◌, [], ◌∷◌, Bool, true, ◌&&◌, Option, none, some, Bytes,
  length, ltb, ◌==◌, if◌then◌else◌, ok, ◌≡◌, ◌↔◌, refl, arith, All,
}
use watermelon.Nkeys.{KeyCrates, IsKeyLawful, KeyPair, from_encoded_seed, show_public_key}
use watermelon.Nkeys.Seeds.{from_encoded_seed_iff, from_encoded_seed-public, IsSeedOf}
use watermelon.Authenticator.{creds, from_creds, marker}
use watermelon.Authenticator.Files.{sections, unlines, has_line_end, from_creds-sections}

are_octets : Bytes → Bool
are_octets [] = true
are_octets (c ∷ s) = ltb c 256 && are_octets s

are_octets_sound : (s : Bytes) → are_octets s ≡ true → All (λ c. c < 256) s
unfolding are_octets
are_octets_sound [] h = tt
are_octets_sound (c ∷ s) h = ground (arith, are_octets_sound s)

are_octets_complete : (s : Bytes) → All (λ c. c < 256) s → are_octets s ≡ true
unfolding are_octets
are_octets_complete [] h = refl
are_octets_complete (c ∷ s) (here, h) = ground (arith, are_octets_complete s h)

pub fill : ℕ → Bytes → Bytes
fill zero b = b
fill (suc n) b = 65 ∷ fill n b

pub unfill : ℕ → Bytes → Option Bytes
unfolding are_octets
unfill zero s = if are_octets s then some s else none
unfill (suc n) [] = none
unfill (suc n) (c ∷ s) = let rest = unfill n s in if c == 65 then rest else none

length-fill : (n : ℕ) (b : Bytes) → length (fill n b) ≡ n + length b
unfolding fill
length-fill zero b = omega arith
length-fill (suc n) b = omega (arith, length-fill n b)

unfill-fill : (n : ℕ) (b : Bytes) → All (λ c. c < 256) b → unfill n (fill n b) ≡ some b
unfolding unfill fill
unfill-fill zero b h = rw (are_octets_complete b h)
unfill-fill (suc n) b h = unfill-fill n b h

unfill_sound : (n : ℕ) (s b : Bytes) → unfill n s ≡ some b → (fill n b ≡ s) × All (λ c. c < 256) b
unfolding unfill fill
unfill_sound zero s b h = ground (arith, are_octets_sound s)
unfill_sound (suc n) [] b h = ground arith
unfill_sound (suc n) (c ∷ s) b h = ground (arith, unfill_sound n s b)

abbrev zeros : ℕ → Bytes
zeros zero = []
zeros (suc n) = 0 ∷ zeros n

abbrev pub key_crates : KeyCrates (Unit {0})
key_crates = record {
  base32_decode = unfill 22;
  base32_encode = fill 22;
  base64url_encode = λ b. b;
  xmodem = λ b. length b % 65536;
  key_from_seed = λ b. if length b == 32 then some tt else none;
  public_bytes = λ k. zeros 32;
  sign_bytes = λ k b. b;
}

key_crates-IsKeyLawful : IsKeyLawful key_crates
key_crates-IsKeyLawful = record {
  decode_encode = λ b octets len. unfill-fill 22 b octets;
  encode_decode = λ s b h. (unfill_sound 22 s b h).0;
  decode_octets = λ s b h. (unfill_sound 22 s b h).1;
  encode_len = λ b len. omega (arith, length-fill 22 b, len);
  xmodem_bound = λ b. omega arith;
  public_octets = λ k. are_octets_sound (zeros 32) (unfold are_octets in refl);
  public_len = λ k. refl;
}

abbrev fifth_kind : KeyPair (Unit {0})
fifth_kind = record { kind = 5; key = tt }

abbrev seed_text : Bytes
seed_text = codes "AAAAAAAAAAAAAAAAAAAAAA" ++ 149 ∷ 5 ∷ zeros 32 ++ 34 ∷ 0 ∷ []

seed_is_read : from_encoded_seed key_crates seed_text ≡ ok fifth_kind
unfolding from_encoded_seed unfill are_octets
seed_is_read = refl

from_encoded_seed_iff_example :
    (from_encoded_seed key_crates seed_text ≡ ok fifth_kind)
    ↔ IsSeedOf key_crates seed_text fifth_kind
from_encoded_seed_iff_example =
    from_encoded_seed_iff key_crates key_crates-IsKeyLawful seed_text fifth_kind

from_encoded_seed-public_example :
    from_encoded_seed key_crates (show_public_key key_crates fifth_kind) ≡ ok fifth_kind
from_encoded_seed-public_example =
    from_encoded_seed-public key_crates key_crates-IsKeyLawful fifth_kind tt (omega arith) refl

abbrev stars : Bytes
stars = codes "*****"

from_creds-sections_example :
    from_creds key_crates
      (unlines (sections ([] ∷ []) (codes "eyJ0") (stars ∷ [] ∷ []) seed_text (stars ∷ [])))
    ≡ ok (creds (codes "eyJ0") fifth_kind)
from_creds-sections_example =
    from_creds-sections key_crates ([] ∷ []) (stars ∷ [] ∷ []) (stars ∷ []) (codes "eyJ0") seed_text
      fifth_kind (unfold marker in (refl, tt)) (unfold marker in (refl, (refl, tt)))
      (unfold marker in (refl, tt)) (unfold has_line_end in (refl, tt))
      (unfold has_line_end in (refl, (refl, tt))) (unfold has_line_end in (refl, tt))
      (unfold has_line_end in refl) (unfold has_line_end in refl) seed_is_read
