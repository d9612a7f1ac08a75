-- ===== src/Wire/Spaces.antt =====
-- watermelon-proto/src/util/split_spaces.rs. The iterator is its state, the bytes not read yet, and
-- `next` is one call of the closure.
pub mod Laws
use watermelon.Prelude.{
  ℕ, suc, ◌==◌, ◌||◌, Bool, [], ◌∷◌, Option, none, some, Bytes, is_empty, if◌then◌else◌, take, drop,
}
use watermelon.Crates.{Crates}

abbrev pub is_space : ℕ → Bool
is_space b = b == 32 || b == 9

-- `bytes.iter().take_while(…).count()`
unfoldable pub leading_spaces : Bytes → ℕ
leading_spaces [] = 0
leading_spaces (b ∷ bytes) = if is_space b then suc (leading_spaces bytes) else 0

-- the chunk, if there is one, and the bytes left
module _ {I C : Type 0} (crates : Crates I C) where
  -- the chunk before the first space or tab, and the bytes behind the run of them
  unfoldable pub cut : Bytes → Option ℕ → Option Bytes × Bytes
  cut bytes none = (some bytes, [])
  cut bytes (some i) =
      let rest = drop i bytes in (some (take i bytes), drop (leading_spaces rest) rest)

  -- the chunk, if there is one, and the bytes left
  unfoldable pub next : Bytes → Option Bytes × Bytes
  unfolding cut
  next bytes = if is_empty bytes then (none, bytes) else cut bytes (crates.memchr2 32 9 bytes)
