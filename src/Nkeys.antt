-- ===== src/Nkeys.antt =====
-- watermelon-nkeys/src/seed.rs and crc.rs: the text of a seed, and that of a public key. The crates
-- data_encoding, crc and the one that signs are parameters. The arrays of 34 and 36 bytes are lists,
-- and `byte_at` is asked within them only.
pub mod Seeds
use watermelon.Prelude.{
  ℕ, ◌+◌, ◌*◌, ◌/◌, ◌%◌, ◌<◌, [], ◌∷◌, ◌++◌, Option, some, Bytes, length, take, drop, not, ◌==◌,
  if◌then◌else◌, Result, ok, err, ◌>>=◌, ok_or, ◌≡◌, All,
}

-- The calls of third-party code, at a type `K` of Ed25519 key pairs.
pub record KeyCrates (K : Type 0) : Type 0 where
  pub base32_decode : Bytes → Option Bytes
  pub base32_encode : Bytes → Bytes
  pub base64url_encode : Bytes → Bytes
  pub xmodem : Bytes → ℕ
  pub key_from_seed : Bytes → Option K
  pub public_bytes : K → Bytes
  pub sign_bytes : K → Bytes → Bytes

-- What the code relies on: 36 bytes have a text of 58 characters and no other, what is decoded are
-- bytes, a checksum has 16 bits, and the seed of a key and its public half have 32 bytes.
pub record IsKeyLawful {K : Type 0} (crates : KeyCrates K) : Type 0 where
  pub decode_encode :
      (b : Bytes)
      → All (λ c. c < 256) b
      → length b ≡ 36
      → crates.base32_decode (crates.base32_encode b) ≡ some b
  pub encode_decode : (s b : Bytes) → crates.base32_decode s ≡ some b → crates.base32_encode b ≡ s
  pub decode_octets : (s b : Bytes) → crates.base32_decode s ≡ some b → All (λ c. c < 256) b
  pub encode_len : (b : Bytes) → length b ≡ 36 → length (crates.base32_encode b) ≡ 58
  pub xmodem_bound : (b : Bytes) → crates.xmodem b < 65536
  pub public_octets : (k : K) → All (λ c. c < 256) (crates.public_bytes k)
  pub public_len : (k : K) → length (crates.public_bytes k) ≡ 32

-- `Crc16`
pub record Crc16 : Type 0 where
  pub raw : ℕ

-- `SEED_PREFIX_BYTE`, which is `18 << 3`
abbrev pub seed_prefix_byte : ℕ
seed_prefix_byte = 144

pub record KeyPair (K : Type 0) : Type 0 where
  pub kind : ℕ
  pub key : K

pub data KeyPairFromSeedError : Type 0 where
  invalid_seed_length invalid_base32 invalid_raw_seed_length bad_crc invalid_prefix decode_error :
      KeyPairFromSeedError

-- indexing
abbrev pub byte_at : ℕ → Bytes → ℕ
byte_at i s = at_front (drop i s)
  where
    at_front : Bytes → ℕ
    at_front [] = 0
    at_front (b ∷ bs) = b

-- `u16::from_le_bytes` and `u16::to_le_bytes`
unfoldable pub from_raw_encoded : Bytes → Crc16
from_raw_encoded val = record { raw = byte_at 0 val + 256 * byte_at 1 val }

unfoldable pub to_raw_encoded : Crc16 → Bytes
to_raw_encoded crc = crc.raw % 256 ∷ crc.raw / 256 ∷ []

module _ {K : Type 0} (crates : KeyCrates K) where
  unfoldable pub compute : Bytes → Crc16
  compute buf = record { raw = crates.xmodem buf }

  -- `b & (u8::MAX << 3)` clears the three low bits of a byte.
  unfoldable pub from_raw_seed : Bytes → Result KeyPairFromSeedError (KeyPair K)
  from_raw_seed raw_seed =
      if not (byte_at 0 raw_seed / 8 * 8 == seed_prefix_byte) then err invalid_prefix else do
        key ← ok_or (crates.key_from_seed (drop 2 raw_seed)) decode_error
        ok (record { kind = byte_at 1 raw_seed; key = key })

  -- the bytes that the text stands for
  unfoldable pub from_full_raw_seed : Bytes → Result KeyPairFromSeedError (KeyPair K)
  unfolding compute from_raw_encoded from_raw_seed
  from_full_raw_seed full =
      if not (length full == 36)
      then err invalid_raw_seed_length
      else if not ((compute (take 34 full)).raw == (from_raw_encoded (drop 34 full)).raw)
      then err bad_crc
      else from_raw_seed (take 34 full)

  unfoldable pub from_encoded_seed : Bytes → Result KeyPairFromSeedError (KeyPair K)
  unfolding from_full_raw_seed
  from_encoded_seed seed =
      if not (length seed == 58)
      then err invalid_seed_length
      else do full ← ok_or (crates.base32_decode seed) invalid_base32; from_full_raw_seed full

  -- `sign`, and `Display` of the signature
  unfoldable pub sign : KeyPair K → Bytes → Bytes
  sign pair buf = crates.base64url_encode (crates.sign_bytes pair.key buf)

  -- `Display` of `PublicKey`
  unfoldable pub show_public_key : KeyPair K → Bytes
  unfolding compute to_raw_encoded
  show_public_key pair =
      let body = seed_prefix_byte ∷ pair.kind ∷ crates.public_bytes pair.key in
      crates.base32_encode (body ++ to_raw_encoded (compute body))
