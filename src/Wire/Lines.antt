-- ===== src/Wire/Lines.antt =====
-- watermelon-proto/src/util/lines_iter.rs and crlf.rs. A line is read by `next`; the iterator is
-- collected with one unit of fuel for each byte, since a call that yields a line consumes a byte.
pub mod Laws
use watermelon.Prelude.{
  ℕ, zero, suc, List, [], ◌∷◌, Option, none, some, Bytes, is_empty, if◌then◌else◌, take, drop,
  length, crlf,
}
use watermelon.Crates.{Crates}

module _ {I C : Type 0} (crates : Crates I C) where
  -- `CrlfFinder::find`
  unfoldable pub find : Bytes → Option ℕ
  find haystack = crates.memmem crlf haystack

  unfoldable pub cut : Bytes → Option ℕ → Bytes × Bytes
  cut bytes none = (bytes, [])
  cut bytes (some i) = (take i bytes, drop 2 (drop i bytes))

  -- one call of the closure
  unfoldable pub next : Bytes → Option (Bytes × Bytes)
  unfolding cut find
  next bytes = if is_empty bytes then none else some (cut bytes (find bytes))

  unfoldable pub lines_upto : ℕ → Bytes → List Bytes
  unfolding next
  lines_upto zero bytes = []
  lines_upto (suc n) bytes = elim (next bytes) [
    | none ↦ []
    | some (line, rest) ↦ line ∷ lines_upto n rest
  ]

  unfoldable pub lines : Bytes → List Bytes
  unfolding lines_upto
  lines bytes = lines_upto (length bytes) bytes
