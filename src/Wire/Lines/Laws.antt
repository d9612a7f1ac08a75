-- ===== src/Wire/Lines/Laws.antt =====
-- What `lines_iter` yields on a block of lines, and that its fuel is enough.
use watermelon.Prelude.{
  ℕ, zero, suc, ◌+◌, ◌≤◌, ◌<◌, false, List, [], ◌∷◌, ◌++◌, Option, none, some, Bytes, is_empty,
  drop, length, All, ◌≡◌, refl, arith, ap, ◌∙◌, crlf, take_prefix, drop_prefix, length-append,
  length-drop, Option-cases, inl, inr,
}
use watermelon.Crates.{Crates, IsLawful, LacksCrlf, index_of-crlf}
use watermelon.Wire.Lines.{find, cut, next, lines_upto, lines}

-- Each line with its end.
abbrev pub render : List Bytes → Bytes
render [] = []
render (l ∷ ls) = l ++ (crlf ++ render ls)

is_empty-append : (l rest : Bytes) → is_empty (l ++ (crlf ++ rest)) ≡ false
is_empty-append [] rest = refl
is_empty-append (c ∷ l) rest = refl

module _ {I C : Type 0} (crates : Crates I C) where
  -- A call that yields a line leaves fewer bytes.
  next-lt :
      (bytes line rest : Bytes) → next crates bytes ≡ some (line, rest) → length rest < length bytes
  unfolding next
  next-lt [] line rest h = cc
  next-lt (c ∷ bytes) line rest h = shorter (find crates (c ∷ bytes)) h
    where
      shorter :
          (found : Option ℕ)
          → some (cut crates (c ∷ bytes) found) ≡ some (line, rest)
          → length rest < suc (length bytes)
      shorter none e = ground arith
      shorter (some i) e =
          ground (arith, length-drop 2 (drop i (c ∷ bytes)), length-drop i (c ∷ bytes))

  -- One more unit of fuel than there are bytes changes nothing.
  lines_upto_fuel :
      (n : ℕ) (bytes : Bytes)
      → length bytes ≤ n
      → lines_upto crates (suc n) bytes ≡ lines_upto crates n bytes
  unfolding lines_upto
  lines_upto_fuel zero [] h = refl
  lines_upto_fuel zero (c ∷ bytes) h = absurd (omega arith)
  lines_upto_fuel (suc n) bytes h = elim (Option-cases (next crates bytes)) [
    | inl e ↦ rw (e, lines_upto)
    | inr ((line, rest), e) ↦
        let less = next-lt bytes line rest e in
        rw (e, lines_upto) (ap (◌∷◌ line) (lines_upto_fuel n rest (omega arith)))
  ]

  -- The fuel of `lines`, one unit for each byte, is enough: with any more the lines are the same, so
  -- the iterator ends by itself.
  pub lines-total :
      (bytes : Bytes) (k : ℕ) → lines_upto crates (length bytes + k) bytes ≡ lines crates bytes
  unfolding lines
  lines-total bytes zero =
      let e : length bytes + 0 ≡ length bytes = omega arith in ap (λ n. lines_upto crates n bytes) e
  lines-total bytes (suc k) =
      let e : length bytes + suc k ≡ suc (length bytes + k) = omega arith in
      ap (λ n. lines_upto crates n bytes) e
      ∙ lines_upto_fuel (length bytes + k) bytes (omega arith)
      ∙ lines-total bytes k

module _ {I C : Type 0} (crates : Crates I C) (laws : IsLawful crates) where
  next-line : (l rest : Bytes) → LacksCrlf l → next crates (l ++ (crlf ++ rest)) ≡ some (l, rest)
  unfolding next
  next-line l rest h = rw (
    is_empty-append l rest,
    laws.memmem_first crlf (l ++ (crlf ++ rest)),
    index_of-crlf l rest h,
    drop_prefix l (crlf ++ rest),
    take_prefix l (crlf ++ rest),
  )

  lines_upto-render :
      (n : ℕ) (ls : List Bytes)
      → All LacksCrlf ls
      → length (render ls) ≤ n
      → lines_upto crates n (render ls) ≡ ls
  unfolding lines_upto
  lines_upto-render zero [] h le = refl
  lines_upto-render zero (l ∷ ls) h le = absurd (omega (arith, length-append l (crlf ++ render ls)))
  lines_upto-render (suc n) [] h le = refl
  lines_upto-render (suc n) (l ∷ ls) (hl, hs) le =
      let short : length (render ls) ≤ n = omega (arith, length-append l (crlf ++ render ls)) in
      rw (next-line l (render ls) hl, lines_upto) (ap (◌∷◌ l) (lines_upto-render n ls hs short))

  -- Lines that hold no carriage return are read back from their block, each without its `\r\n`.
  pub lines-render : (ls : List Bytes) → All LacksCrlf ls → lines crates (render ls) ≡ ls
  unfolding lines
  lines-render ls h = lines_upto-render (length (render ls)) ls h (omega arith)
