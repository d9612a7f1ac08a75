-- ===== src/Proto/Decoder/Machine/Arguments.antt =====
-- How the arguments of a `MSG` and an `HMSG` line are split, for lines that separate them by a space.
use watermelon.Prelude.{
  ℕ, true, false, [], ◌∷◌, ◌++◌, none, some, Bytes, codes, is_digit, All, ◌≡◌, ◌≢◌, refl, sym, ap,
  ◌∙◌, arith, append-nil,
}
use watermelon.Crates.{Crates, IsLawful, LacksCrlf}
use watermelon.Wire.Spaces.{next, leading_spaces, is_space}
use watermelon.Wire.Spaces.Laws.{IsWord, next-word, next_last}
use watermelon.Subject.{is_delimiter}
use watermelon.Proto.Decoder.Control.{split_msg, split_hmsg}

-- An argument of a control line: some bytes, none of which delimits arguments or lines.
abbrev pub IsArgument : Bytes → Type 0
IsArgument w = (w ≢ []) × All (λ c. is_delimiter c ≡ false) w

All-words : (w : Bytes) → All (λ c. is_delimiter c ≡ false) w → All (λ c. is_space c ≡ false) w
All-words [] h = tt
All-words (c ∷ w) (hc, h) = (ground arith, All-words w h)

IsArgument-IsWord : (w : Bytes) → IsArgument w → IsWord w
IsArgument-IsWord w (ne, h) = (ne, All-words w h)

pub IsArgument-LacksCrlf : (w : Bytes) → All (λ c. is_delimiter c ≡ false) w → LacksCrlf w
IsArgument-LacksCrlf [] h = tt
IsArgument-LacksCrlf (c ∷ w) (hc, h) = (ground arith, IsArgument-LacksCrlf w h)

digits_delimit : (w : Bytes) → All (λ c. is_digit c ≡ true) w → All (λ c. is_delimiter c ≡ false) w
digits_delimit [] h = tt
digits_delimit (c ∷ w) (hc, h) = (ground arith, digits_delimit w h)

pub itoa-IsArgument :
    {I C : Type 0} (crates : Crates I C) (laws : IsLawful crates) (n : ℕ)
    → IsArgument (crates.itoa n)
itoa-IsArgument crates laws n = (laws.itoa_ne_nil n, digits_delimit _ (laws.itoa_digits n))

leading_spaces-word : (w rest : Bytes) → IsWord w → leading_spaces (w ++ rest) ≡ 0
unfolding leading_spaces
leading_spaces-word [] rest (ne, h) = absurd (ne refl)
leading_spaces-word (c ∷ w) rest (ne, (hc, h)) = rw hc

module _ {I C : Type 0} (crates : Crates I C) (laws : IsLawful crates) where
  -- an argument, a space, and another argument behind it
  next_space :
      (w v rest : Bytes)
      → IsArgument w
      → IsArgument v
      → next crates (w ++ (codes " " ++ (v ++ rest))) ≡ (some w, v ++ rest)
  next_space w v rest hw hv =
      next-word crates laws w (codes " ") (v ++ rest) (IsArgument-IsWord w hw) (refl, tt) (cc)
        (leading_spaces-word v rest (IsArgument-IsWord v hv))

  -- the same where that other argument is the last
  next_space_last :
      (w v : Bytes)
      → IsArgument w
      → IsArgument v
      → next crates (w ++ (codes " " ++ v)) ≡ (some w, v)
  next_space_last w v hw hv =
      ap (λ t. next crates (w ++ (codes " " ++ t))) (sym (append-nil v))
      ∙ next_space w v [] hw hv
      ∙ ap (λ t. (some w, t)) (append-nil v)

  pub split_msg_three :
      (a b c : Bytes)
      → IsArgument a
      → IsArgument b
      → IsArgument c
      → split_msg crates (a ++ (codes " " ++ (b ++ (codes " " ++ c)))) ≡ some (a, b, none, c)
  unfolding split_msg
  split_msg_three a b c ha hb hc = rw (
    next_space a b (codes " " ++ c) ha hb,
    next_space_last b c hb hc,
    next_last crates laws c (IsArgument-IsWord c hc),
  )

  pub split_msg_four :
      (a b c d : Bytes)
      → IsArgument a
      → IsArgument b
      → IsArgument c
      → IsArgument d
      → split_msg crates (a ++ (codes " " ++ (b ++ (codes " " ++ (c ++ (codes " " ++ d))))))
        ≡ some (a, b, some c, d)
  unfolding split_msg
  split_msg_four a b c d ha hb hc hd = rw (
    next_space a b (codes " " ++ (c ++ (codes " " ++ d))) ha hb,
    next_space b c (codes " " ++ d) hb hc,
    next_space_last c d hc hd,
    next_last crates laws d (IsArgument-IsWord d hd),
  )

  pub split_hmsg_four :
      (a b c d : Bytes)
      → IsArgument a
      → IsArgument b
      → IsArgument c
      → IsArgument d
      → split_hmsg crates (a ++ (codes " " ++ (b ++ (codes " " ++ (c ++ (codes " " ++ d))))))
        ≡ some (a, b, none, c, d)
  unfolding split_hmsg
  split_hmsg_four a b c d ha hb hc hd = rw (
    next_space a b (codes " " ++ (c ++ (codes " " ++ d))) ha hb,
    next_space b c (codes " " ++ d) hb hc,
    next_space_last c d hc hd,
    next_last crates laws d (IsArgument-IsWord d hd),
  )

  pub split_hmsg_five :
      (a b c d e : Bytes)
      → IsArgument a
      → IsArgument b
      → IsArgument c
      → IsArgument d
      → IsArgument e
      → split_hmsg crates
          (a ++ (codes " " ++ (b ++ (codes " " ++ (c ++ (codes " " ++ (d ++ (codes " " ++ e))))))))
        ≡ some (a, b, some c, d, e)
  unfolding split_hmsg
  split_hmsg_five a b c d e ha hb hc hd he = rw (
    next_space a b (codes " " ++ (c ++ (codes " " ++ (d ++ (codes " " ++ e))))) ha hb,
    next_space b c (codes " " ++ (d ++ (codes " " ++ e))) hb hc,
    next_space c d (codes " " ++ e) hc hd,
    next_space_last d e hd he,
    next_last crates laws e (IsArgument-IsWord e he),
  )
