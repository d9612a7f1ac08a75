-- ===== src/Nkeys/Seeds.antt =====
-- Which texts are seeds, and that of a public key among them.
use watermelon.Prelude.{
  ℕ, suc, zero, ◌/◌, ◌%◌, ◌<◌, ◌≤◌, [], ◌∷◌, ◌++◌, some, Bytes, length, take, drop, ok, ◌≡◌, refl,
  sym, ap, ◌∙◌, arith, length-append, take_prefix, drop_prefix, ◌↔◌, take-append-drop, length-take,
  length-drop, All, All-append, Option-cases, inl, inr, subst,
}
use watermelon.Nkeys.{
  KeyCrates, IsKeyLawful, KeyPair, from_raw_encoded, to_raw_encoded, compute, from_raw_seed,
  from_full_raw_seed, from_encoded_seed, show_public_key, Crc16, byte_at,
}

from-to_raw_encoded : (crc : Crc16) → (from_raw_encoded (to_raw_encoded crc)).raw ≡ crc.raw
unfolding from_raw_encoded to_raw_encoded
from-to_raw_encoded crc = omega arith

length-to_raw_encoded : (crc : Crc16) → length (to_raw_encoded crc) ≡ 2
unfolding to_raw_encoded
length-to_raw_encoded crc = refl

octets-take : (n : ℕ) (s : Bytes) → All (λ c. c < 256) s → All (λ c. c < 256) (take n s)
octets-take zero s h = tt
octets-take (suc n) [] h = h
octets-take (suc n) (c ∷ s) (here, h) = (here, octets-take n s h)

octets-drop : (n : ℕ) (s : Bytes) → All (λ c. c < 256) s → All (λ c. c < 256) (drop n s)
octets-drop zero s h = h
octets-drop (suc n) [] h = h
octets-drop (suc n) (c ∷ s) (_, h) = octets-drop n s h

-- two bytes are those of the number that they encode
to-from_raw_encoded :
    (crc : Crc16) (s : Bytes)
    → length s ≡ 2
    → All (λ c. c < 256) s
    → (from_raw_encoded s).raw ≡ crc.raw
    → to_raw_encoded crc ≡ s
unfolding to_raw_encoded from_raw_encoded
to-from_raw_encoded crc [] len octets e = absurd (omega arith)
to-from_raw_encoded crc (lo ∷ []) len octets e = absurd (omega arith)
to-from_raw_encoded crc (lo ∷ hi ∷ []) len (l, (h, _)) e =
    let same_lo : crc.raw % 256 ≡ lo = omega arith in
    let same_hi : crc.raw / 256 ≡ hi = omega arith in cc
to-from_raw_encoded crc (lo ∷ hi ∷ x ∷ s) len octets e = absurd (omega arith)

-- a list of two or more bytes, taken apart
two_front : (s : Bytes) → 2 ≤ length s → s ≡ byte_at 0 s ∷ byte_at 1 s ∷ drop 2 s
two_front [] h = absurd (omega arith)
two_front (a ∷ []) h = absurd (omega arith)
two_front (a ∷ b ∷ s) h = refl

module _ {K : Type 0} (crates : KeyCrates K) where
  -- the bytes of a text: a prefix, a kind, 32 bytes and their checksum
  abbrev sealed : ℕ → ℕ → Bytes → Bytes
  sealed first kind body =
      (first ∷ kind ∷ body) ++ to_raw_encoded (compute crates (first ∷ kind ∷ body))

  length-sealed :
      (first kind : ℕ) (body : Bytes) → length body ≡ 32 → length (sealed first kind body) ≡ 36
  length-sealed first kind body h =
      let sum = compute crates (first ∷ kind ∷ body) in
      omega (arith, length-append body (to_raw_encoded sum), length-to_raw_encoded sum)

  take-sealed :
      (first kind : ℕ) (body : Bytes)
      → length body ≡ 32
      → take 34 (sealed first kind body) ≡ first ∷ kind ∷ body
  take-sealed first kind body h =
      let sum = to_raw_encoded (compute crates (first ∷ kind ∷ body)) in
      ap (λ n. take (suc (suc n)) ((first ∷ kind ∷ body) ++ sum)) (sym h)
      ∙ take_prefix (first ∷ kind ∷ body) sum

  drop-sealed :
      (first kind : ℕ) (body : Bytes)
      → length body ≡ 32
      → drop 34 (sealed first kind body) ≡ to_raw_encoded (compute crates (first ∷ kind ∷ body))
  drop-sealed first kind body h =
      let sum = to_raw_encoded (compute crates (first ∷ kind ∷ body)) in
      ap (λ n. drop (suc (suc n)) ((first ∷ kind ∷ body) ++ sum)) (sym h)
      ∙ drop_prefix (first ∷ kind ∷ body) sum

  octets-sealed :
      IsKeyLawful crates
      → (first kind : ℕ) (body : Bytes) → All (λ c. c < 256) (first ∷ kind ∷ body)
      → All (λ c. c < 256) (sealed first kind body)
  unfolding to_raw_encoded compute
  octets-sealed laws first kind body octets =
      let sum = crates.xmodem (first ∷ kind ∷ body) in
      let bound = laws.xmodem_bound (first ∷ kind ∷ body) in
      All-append (λ c. c < 256) (first ∷ kind ∷ body) (sum % 256 ∷ sum / 256 ∷ []) octets
        (omega arith, (omega (arith, bound), tt))

  from_full-parts :
      (full body : Bytes) (first kind : ℕ) (key : K)
      → length full ≡ 36
      → take 34 full ≡ first ∷ kind ∷ body
      → (from_raw_encoded (drop 34 full)).raw ≡ (compute crates (first ∷ kind ∷ body)).raw
      → first / 8 ≡ 18
      → crates.key_from_seed body ≡ some key
      → from_full_raw_seed crates full ≡ ok (record { kind = kind; key = key })
  unfolding from_full_raw_seed from_raw_seed
  from_full-parts full body first kind key len front sum prefix found = ground arith

  -- the text of a prefix byte, a kind, the 32 bytes of a key's seed and their checksum
  from_encoded_seed-sealed :
      IsKeyLawful crates
      → (first kind : ℕ) (body : Bytes) (key : K) → All (λ c. c < 256) (first ∷ kind ∷ body)
      → first / 8 ≡ 18
      → length body ≡ 32
      → crates.key_from_seed body ≡ some key
      → from_encoded_seed crates (crates.base32_encode (sealed first kind body))
        ≡ ok (record { kind = kind; key = key })
  unfolding from_encoded_seed
  from_encoded_seed-sealed laws first kind body key octets prefix len found =
      let whole = length-sealed first kind body len in
      let sum : (from_raw_encoded (drop 34 (sealed first kind body))).raw
          ≡ (compute crates (first ∷ kind ∷ body)).raw =
        ap (λ s. (from_raw_encoded s).raw) (drop-sealed first kind body len)
        ∙ from-to_raw_encoded (compute crates (first ∷ kind ∷ body)) in
      let read =
        from_full-parts (sealed first kind body) body first kind key whole
          (take-sealed first kind body len) sum prefix found in
      let text = sealed first kind body in
      let decoded = laws.decode_encode text (octets-sealed laws first kind body octets) whole in
      ground (arith, read, laws.encode_len text whole, decoded)

  read_full :
      (full : Bytes) (pair : KeyPair K)
      → from_full_raw_seed crates full ≡ ok pair
      → (length full ≡ 36)
        × ((from_raw_encoded (drop 34 full)).raw ≡ (compute crates (take 34 full)).raw)
        × (byte_at 0 (take 34 full) / 8 ≡ 18)
        × (byte_at 1 (take 34 full) ≡ pair.kind)
        × (crates.key_from_seed (drop 2 (take 34 full)) ≡ some pair.key)
  unfolding from_full_raw_seed from_raw_seed
  read_full full pair h = ground arith

  read_text :
      (text : Bytes) (pair : KeyPair K)
      → from_encoded_seed crates text ≡ ok pair
      → (full : Bytes) × (crates.base32_decode text ≡ some full)
        × (from_full_raw_seed crates full ≡ ok pair)
  unfolding from_encoded_seed
  read_text text pair h = elim (Option-cases (crates.base32_decode text)) [
    | inl e ↦ ground arith
    | inr (full, e) ↦ (full, e, ground arith)
  ]

  front-full :
      (full : Bytes) (kind : ℕ)
      → length full ≡ 36
      → byte_at 1 (take 34 full) ≡ kind
      → take 34 full ≡ byte_at 0 (take 34 full) ∷ kind ∷ drop 2 (take 34 full)
  front-full full kind len same =
      two_front (take 34 full) (omega (arith, length-take 34 full))
      ∙ ap (λ k. byte_at 0 (take 34 full) ∷ k ∷ drop 2 (take 34 full)) same

  -- the bytes of an accepted text are those of its prefix byte, its kind and its key
  full-sealed :
      (full : Bytes) (kind : ℕ)
      → length full ≡ 36
      → All (λ c. c < 256) full
      → (from_raw_encoded (drop 34 full)).raw ≡ (compute crates (take 34 full)).raw
      → byte_at 1 (take 34 full) ≡ kind
      → sealed (byte_at 0 (take 34 full)) kind (drop 2 (take 34 full)) ≡ full
  full-sealed full kind len octets sum same =
      let front = front-full full kind len same in
      let back : to_raw_encoded (compute crates (take 34 full)) ≡ drop 34 full =
        to-from_raw_encoded (compute crates (take 34 full)) (drop 34 full)
          (omega (arith, length-drop 34 full)) (octets-drop 34 full octets) sum in
      ap (λ s. s ++ to_raw_encoded (compute crates s)) (sym front)
      ∙ ap (λ s. take 34 full ++ s) back
      ∙ take-append-drop 34 full

  -- the text of a seed of a key pair
  abbrev pub IsSeedOf : Bytes → KeyPair K → Type 0
  IsSeedOf text pair =
      (first : ℕ) × (body : Bytes) × All (λ c. c < 256) (first ∷ pair.kind ∷ body)
      × (first / 8 ≡ 18)
      × (length body ≡ 32)
      × (crates.key_from_seed body ≡ some pair.key)
      × (crates.base32_encode (sealed first pair.kind body) ≡ text)

  -- A text is read as a key pair exactly if it is the base32 text of a prefix byte with the five
  -- bits of a seed, the kind, the 32 bytes of the key's seed, and the checksum of these 34 bytes.
  pub from_encoded_seed_iff :
      IsKeyLawful crates
      → (text : Bytes) (pair : KeyPair K)
      → (from_encoded_seed crates text ≡ ok pair) ↔ IsSeedOf text pair
  from_encoded_seed_iff laws text pair = (
    (λ h.
        let (full, decoded, read) = read_text text pair h in
        let (len, sum, prefix, kind, found) = read_full full pair read in
        let octets = laws.decode_octets text full decoded in
        (
          byte_at 0 (take 34 full),
          drop 2 (take 34 full),
          subst (All (λ c. c < 256)) (front-full full pair.kind len kind)
              (octets-take 34 full octets),
          prefix,
          omega (arith, length-drop 2 (take 34 full), length-take 34 full),
          found,
          ap crates.base32_encode (full-sealed full pair.kind len octets sum kind)
              ∙ laws.encode_decode text full decoded,
        )),
    λ (first, body, octets, prefix, len, found, same).
        subst (λ s. from_encoded_seed crates s ≡ ok pair) same
          (from_encoded_seed-sealed laws first pair.kind body pair.key octets prefix len found),
  )

  -- The text of a public key is the text of a seed: where the crypto library takes the 32 bytes of
  -- the public key for the seed of some key, `from_encoded_seed` reads the text as a key pair of
  -- that key and the same kind.
  pub from_encoded_seed-public :
      IsKeyLawful crates
      → (pair : KeyPair K) (other : K) → pair.kind < 256
      → crates.key_from_seed (crates.public_bytes pair.key) ≡ some other
      → from_encoded_seed crates (show_public_key crates pair)
        ≡ ok (record { kind = pair.kind; key = other })
  unfolding show_public_key
  from_encoded_seed-public laws pair other kind found =
      from_encoded_seed-sealed laws 144 pair.kind (crates.public_bytes pair.key) other
        (omega arith, (kind, laws.public_octets pair.key)) (omega arith) (laws.public_len pair.key)
        found
