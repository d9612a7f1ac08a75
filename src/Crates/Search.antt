-- ===== src/Crates/Search.antt =====
-- What a search returns: the first index at which a byte passes a test, or a needle stands.
use watermelon.Prelude.{
  ℕ, suc, ◌+◌, ◌≤◌, Bool, true, false, [], ◌∷◌, ◌++◌, Option, none, some, ◌≡◌, refl, arith, Bytes,
  starts_with, if◌then◌else◌, All, length, crlf, ◌==◌, inl, inr, sym, ap, ◌∙◌, Bool-cases,
}
use mathlib.Core.Option

unfoldable pub index_where : (ℕ → Bool) → Bytes → Option ℕ
index_where p [] = none
index_where p (c ∷ s) = if p c then some 0 else Option.map suc (index_where p s)

-- the needle is not empty
unfoldable pub index_of : Bytes → Bytes → Option ℕ
index_of needle [] = none
index_of needle (c ∷ s) =
    if starts_with needle (c ∷ s) then some 0 else Option.map suc (index_of needle s)

pub index_where-none :
    (p : ℕ → Bool) (s : Bytes) → All (λ c. p c ≡ false) s → index_where p s ≡ none
unfolding index_where
index_where-none p [] h = refl
index_where-none p (c ∷ s) (hc, hs) = rw (hc, index_where-none p s hs)

pub index_where_hit :
    (p : ℕ → Bool) (s rest : Bytes) (b : ℕ)
    → All (λ c. p c ≡ false) s
    → p b ≡ true
    → index_where p (s ++ b ∷ rest) ≡ some (length s)
unfolding index_where
index_where_hit p [] rest b h hb = rw hb
index_where_hit p (c ∷ s) rest b (hc, hs) hb = rw (hc, index_where_hit p s rest b hs hb)

-- No line end starts in the text, whatever follows: it holds no `\r\n` and no `\r` at its end.
abbrev pub LacksCrlf : Bytes → Type 0
LacksCrlf = All (λ c. (c == b'\r') ≡ false)

pub index_of-crlf :
    (s rest : Bytes) → LacksCrlf s → index_of crlf (s ++ (crlf ++ rest)) ≡ some (length s)
unfolding index_of
index_of-crlf [] rest h = refl
index_of-crlf (c ∷ s) rest (hc, hs) = ground (arith, index_of-crlf s rest hs)

map-suc : (o : Option ℕ) {i : ℕ} → Option.map suc o ≡ some i → (j : ℕ) × (o ≡ some j) × (i ≡ suc j)
map-suc none h = cc
map-suc (some j) h = (j, refl, ground arith)

-- Two equations for `index_of`, by the test at the first byte.
index_of_here :
    (needle s : Bytes) (c : ℕ)
    → starts_with needle (c ∷ s) ≡ true
    → index_of needle (c ∷ s) ≡ some 0
unfolding index_of
index_of_here needle s c h = rw h

pub index_of_later :
    (needle s : Bytes) (c : ℕ)
    → starts_with needle (c ∷ s) ≡ false
    → index_of needle (c ∷ s) ≡ Option.map suc (index_of needle s)
unfolding index_of
index_of_later needle s c h = rw h

-- A line end stands wholly in the text.
pub index_of-crlf_room : (s : Bytes) (i : ℕ) → index_of crlf s ≡ some i → i + 2 ≤ length s
unfolding index_of
index_of-crlf_room [] i h = cc
index_of-crlf_room (c ∷ s) i h = elim (Bool-cases (starts_with crlf (c ∷ s))) [
  | inl hit ↦ room c s hit (sym (index_of_here crlf s c hit) ∙ h)
  | inr miss ↦
      let (j, e, k) = map-suc (index_of crlf s) (sym (index_of_later crlf s c miss) ∙ h) in
      omega (arith, index_of-crlf_room s j e)
]
  where
    room :
        (c : ℕ) (s : Bytes)
        → starts_with crlf (c ∷ s) ≡ true
        → some 0 ≡ some i
        → i + 2 ≤ suc (length s)
    room c [] hit e = ground arith
    room c (d ∷ s) hit e = ground arith

starts_with-crlf-append :
    (s e : Bytes) → 2 ≤ length s → starts_with crlf (s ++ e) ≡ starts_with crlf s
starts_with-crlf-append [] e h = absurd (omega arith)
starts_with-crlf-append (c ∷ []) e h = absurd (omega arith)
starts_with-crlf-append (c ∷ d ∷ s) e h = refl

-- A longer text shows the same first line end.
pub index_of-crlf-append :
    (s e : Bytes) (i : ℕ) → index_of crlf s ≡ some i → index_of crlf (s ++ e) ≡ some i
index_of-crlf-append [] e i h = unfold index_of in cc
index_of-crlf-append (c ∷ s) e i h =
    let room : 2 ≤ length (c ∷ s) = omega (arith, index_of-crlf_room (c ∷ s) i h) in
    let same = starts_with-crlf-append (c ∷ s) e room in
    elim (Bool-cases (starts_with crlf (c ∷ s))) [
      | inl hit ↦ index_of_here crlf (s ++ e) c (same ∙ hit) ∙ sym (index_of_here crlf s c hit) ∙ h
      | inr miss ↦
          let (j, f, k) = map-suc (index_of crlf s) (sym (index_of_later crlf s c miss) ∙ h) in
          index_of_later crlf (s ++ e) c (same ∙ miss)
          ∙ ap (Option.map suc) (index_of-crlf-append s e j f)
          ∙ ap some (sym k)
    ]

pub index_of-crlf-none : (s : Bytes) → LacksCrlf s → index_of crlf s ≡ none
unfolding index_of
index_of-crlf-none [] h = refl
index_of-crlf-none (c ∷ s) (hc, h) = ground (arith, index_of-crlf-none s h)
