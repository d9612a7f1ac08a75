-- ===== src/Crates.antt =====
-- The crates that watermelon-proto calls and does not contain, as a parameter of the model:
-- `memchr`, `bytestring`, `itoa`, `unicase` and `serde_json`.
mod Search
unfoldable pub use Search.{index_where, index_of}
pub use Search.{
  LacksCrlf, index_where-none, index_where_hit, index_of-crlf, index_of-crlf_room,
  index_of-crlf-append, index_of-crlf-none,
}
use watermelon.Prelude.{
  ℕ, ◌<◌, ◌==◌, ◌≡◌, ◌≢◌, [], Bool, true, Option, Bytes, Ordering, All, is_digit, ◌||◌,
}
use watermelon.Wire.Uint.Laws.{value}

-- `I` is the type `ServerInfo` that `serde_json::from_slice` makes, `C` the type `Connect` that
-- `serde_json::to_writer` prints.
pub record Crates (I C : Type 0) : Type 0 where
  -- `memchr::memchr`, `memchr::memchr2` and `memchr::memmem::Finder::find`, the needles first
  pub memchr : ℕ → Bytes → Option ℕ
  pub memchr2 : ℕ → ℕ → Bytes → Option ℕ
  pub memmem : Bytes → Bytes → Option ℕ
  -- whether `ByteString::try_from` accepts the bytes
  pub is_utf8 : Bytes → Bool
  -- `itoa::Buffer::format`
  pub itoa : ℕ → Bytes
  -- `UniCase`'s `Ord::cmp`
  pub unicase : Bytes → Bytes → Ordering
  pub from_json : Bytes → Option I
  pub to_json : C → Bytes

-- The documented behaviour that the proofs rely on.
pub record IsLawful {I C : Type 0} (crates : Crates I C) : Type 0 where
  -- the index of the first occurrence, if there is one
  pub memchr_first : (b : ℕ) (s : Bytes) → crates.memchr b s ≡ index_where (λ c. c == b) s
  pub memchr2_first :
      (a b : ℕ) (s : Bytes) → crates.memchr2 a b s ≡ index_where (λ c. c == a || c == b) s
  pub memmem_first : (needle s : Bytes) → crates.memmem needle s ≡ index_of needle s
  -- ASCII is UTF-8
  pub ascii_utf8 : (s : Bytes) → All (λ c. c < 128) s → crates.is_utf8 s ≡ true
  -- decimal digits that spell the number
  pub itoa_digits : (n : ℕ) → All (λ c. is_digit c ≡ true) (crates.itoa n)
  pub itoa_ne_nil : (n : ℕ) → crates.itoa n ≢ []
  pub itoa_value : (n : ℕ) → value 0 (crates.itoa n) ≡ n
