-- ===== src/Wire/Spaces/Laws.antt =====
-- What `next` of `split_spaces` yields on words that runs of spaces and tabs separate.
use watermelon.Prelude.{
  suc, true, false, [], ◌∷◌, ◌++◌, none, some, Bytes, is_empty, length, All, ◌≡◌, ◌≢◌, refl, ap,
  take_prefix, drop_prefix,
}
use watermelon.Crates.{Crates, IsLawful, index_where-none, index_where_hit}
use watermelon.Wire.Spaces.{is_space, leading_spaces, next}

-- A word: some bytes, none of them a space or a tab.
abbrev pub IsWord : Bytes → Type 0
IsWord w = (w ≢ []) × All (λ c. is_space c ≡ false) w

abbrev pub AreSpaces : Bytes → Type 0
AreSpaces = All (λ c. is_space c ≡ true)

leading_spaces-append :
    (gap rest : Bytes)
    → AreSpaces gap
    → leading_spaces rest ≡ 0
    → leading_spaces (gap ++ rest) ≡ length gap
unfolding leading_spaces
leading_spaces-append [] rest h e = e
leading_spaces-append (c ∷ gap) rest (hc, h) e = rw hc (ap suc (leading_spaces-append gap rest h e))

is_empty-word : (w rest : Bytes) → w ≢ [] → is_empty (w ++ rest) ≡ false
is_empty-word [] rest h = absurd (h refl)
is_empty-word (c ∷ w) rest h = refl

module _ {I C : Type 0} (crates : Crates I C) (laws : IsLawful crates) where
  -- A word that a run of one or more spaces and tabs ends is yielded whole, and the iterator goes on
  -- behind the run.
  pub next-word :
      (w gap rest : Bytes)
      → IsWord w
      → AreSpaces gap
      → gap ≢ []
      → leading_spaces rest ≡ 0
      → next crates (w ++ (gap ++ rest)) ≡ (some w, rest)
  unfolding next
  next-word w [] rest word spaces ne e = absurd (ne refl)
  next-word w (b ∷ gap) rest (w_ne, word) (hb, spaces) ne e = rw (
    is_empty-word w (b ∷ gap ++ rest) w_ne,
    laws.memchr2_first 32 9 (w ++ (b ∷ gap ++ rest)),
    index_where_hit is_space w (gap ++ rest) b word hb,
    drop_prefix w (b ∷ gap ++ rest),
    take_prefix w (b ∷ gap ++ rest),
    leading_spaces-append (b ∷ gap) rest (hb, spaces) e,
    drop_prefix (b ∷ gap) rest,
  )

  -- The last word is yielded whole, and nothing is left.
  pub next_last : (w : Bytes) → IsWord w → next crates w ≡ (some w, [])
  unfolding next
  next_last [] (ne, word) = absurd (ne refl)
  next_last (c ∷ w) (ne, word) =
      rw (laws.memchr2_first 32 9 (c ∷ w), index_where-none is_space (c ∷ w) word)

  pub next_end : next crates [] ≡ (none, [])
  unfolding next
  next_end = refl
