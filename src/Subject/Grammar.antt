-- ===== src/Subject/Grammar.antt =====
-- The grammar of the subjects that watermelon-proto/src/subject.rs accepts.
use watermelon.Prelude.{
  ℕ, ◌==◌, ◌||◌, not, Bool, true, false, List, [], ◌∷◌, ◌++◌, Bytes, ok, All, ◌≡◌, ◌≢◌, ◌⊎◌, ◌↔◌,
  inl, inr, refl, sym, ap, ◌∙◌, arith, Bool-cases, subst, ==_iff,
}
use watermelon.Subject.{
  is_delimiter, has_delimiter, split_dots, contains_dots, contains_wildcard, check_token,
  check_tokens, validate_subject, onto_first, is_wildcard,
}

-- not a dot and not a wildcard
abbrev pub is_plain : ℕ → Bool
is_plain c = not (c == b'.' || is_wildcard c)

abbrev star : Bytes
star = b'*' ∷ []

abbrev full_wildcard : Bytes
full_wildcard = b'>' ∷ []

-- A token is one or more plain bytes, or `*`.
abbrev pub IsToken : Bytes → Type 0
IsToken t = ((t ≢ []) × All (λ c. is_plain c ≡ true) t) ⊎ (t ≡ star)

-- One or more tokens, of which the last may be `>`.
abbrev pub AreTokens : List Bytes → Type 0
AreTokens [] = ⊥
AreTokens (t ∷ []) = IsToken t ⊎ (t ≡ full_wildcard)
AreTokens (t ∷ u ∷ ts) = IsToken t × AreTokens (u ∷ ts)

-- the tokens, with a dot between each two
abbrev pub join : List Bytes → Bytes
join [] = []
join (t ∷ []) = t
join (t ∷ u ∷ ts) = t ++ b'.' ∷ join (u ∷ ts)

abbrev LacksDot : Bytes → Type 0
LacksDot = All (λ c. (c == b'.') ≡ false)

split_ne_nil : (s : Bytes) → split_dots s ≢ []
unfolding split_dots onto_first
split_ne_nil [] h = cc
split_ne_nil (c ∷ s) h = ground (arith, split_ne_nil s)

join-onto_first : (c : ℕ) (ts : List Bytes) → ts ≢ [] → join (onto_first c ts) ≡ c ∷ join ts
unfolding onto_first
join-onto_first c [] ne = absurd (ne refl)
join-onto_first c (t ∷ []) ne = refl
join-onto_first c (t ∷ u ∷ ts) ne = refl

join-empty_first : (ts : List Bytes) → ts ≢ [] → join ([] ∷ ts) ≡ b'.' ∷ join ts
join-empty_first [] ne = absurd (ne refl)
join-empty_first (t ∷ ts) ne = refl

join-split : (s : Bytes) → join (split_dots s) ≡ s
unfolding split_dots
join-split [] = refl
join-split (c ∷ s) = elim (Bool-cases (c == b'.')) [
  | inl dot ↦
      rw (dot, join-empty_first (split_dots s) (split_ne_nil s))
        (ap (λ t. b'.' ∷ t) (join-split s) ∙ ap (λ x. x ∷ s) (sym ((==_iff c b'.').0 dot)))
  | inr other ↦
      rw (other, join-onto_first c (split_dots s) (split_ne_nil s)) (ap (◌∷◌ c) (join-split s))
]

onto_first_lacks :
    (c : ℕ) (ts : List Bytes)
    → (c == b'.') ≡ false
    → All LacksDot ts
    → All LacksDot (onto_first c ts)
unfolding onto_first
onto_first_lacks c [] h a = ((h, tt), tt)
onto_first_lacks c (t ∷ ts) h (l, a) = ((h, l), a)

split_lacks : (s : Bytes) → All LacksDot (split_dots s)
unfolding split_dots onto_first
split_lacks [] = (tt, tt)
split_lacks (c ∷ s) = elim (Bool-cases (c == b'.')) [
  | inl dot ↦ rw dot (tt, split_lacks s)
  | inr other ↦ rw other (onto_first_lacks c (split_dots s) other (split_lacks s))
]

no_dots : (s : Bytes) → LacksDot s → contains_dots s ≡ false
unfolding contains_dots
no_dots [] h = refl
no_dots (c ∷ s) (hc, h) = ground (arith, no_dots s h)

wildcard_iff :
    (s : Bytes) → LacksDot s → (contains_wildcard s ≡ false) ↔ All (λ c. is_plain c ≡ true) s
unfolding contains_wildcard
wildcard_iff [] h = ground arith
wildcard_iff (c ∷ s) (hc, h) = ground (arith, wildcard_iff s h)

one_byte : (c d : ℕ) → (◌≡◌ {A = Bytes} (c ∷ []) (d ∷ [])) ↔ ((c == d) ≡ true)
one_byte c d = ground arith

-- What the checks of one token amount to.
check_token_iff :
    (t : Bytes) (more : Bool)
    → LacksDot t
    → (check_token t more ≡ ok tt) ↔ (IsToken t ⊎ ((t ≡ full_wildcard) × (more ≡ false)))
unfolding check_token
check_token_iff [] more lacks = ground arith
check_token_iff (c ∷ []) more (lc, lacks) = ground (arith, one_byte c b'*', one_byte c b'>')
check_token_iff (c ∷ d ∷ t) more lacks =
    ground (arith, no_dots (c ∷ d ∷ t) lacks, wildcard_iff (c ∷ d ∷ t) lacks)

check_tokens_iff :
    (ts : List Bytes) → ts ≢ [] → All LacksDot ts → (check_tokens ts ≡ ok tt) ↔ AreTokens ts
unfolding check_tokens
check_tokens_iff [] ne a = absurd (ne refl)
check_tokens_iff (t ∷ []) ne (l, a) = ground (arith, check_token_iff t false l)
check_tokens_iff (t ∷ u ∷ ts) ne (l, a) =
    ground (arith, check_token_iff t true l, check_tokens_iff (u ∷ ts) (λ q. absurd (cc)) a)

plain_lacks : (t : Bytes) → All (λ c. is_plain c ≡ true) t → LacksDot t
plain_lacks [] h = tt
plain_lacks (c ∷ t) (hc, h) = (ground arith, plain_lacks t h)

IsToken-LacksDot : (t : Bytes) → IsToken t → LacksDot t
IsToken-LacksDot t (inl (ne, h)) = plain_lacks t h
IsToken-LacksDot t (inr e) = subst LacksDot (sym e) (refl, tt)

AreTokens-LacksDot : (ts : List Bytes) → AreTokens ts → All LacksDot ts
AreTokens-LacksDot [] h = absurd h
AreTokens-LacksDot (t ∷ []) (inl h) = (IsToken-LacksDot t h, tt)
AreTokens-LacksDot (t ∷ []) (inr e) = (subst LacksDot (sym e) (refl, tt), tt)
AreTokens-LacksDot (t ∷ u ∷ ts) (h, hs) = (IsToken-LacksDot t h, AreTokens-LacksDot (u ∷ ts) hs)

split_last : (t : Bytes) → LacksDot t → split_dots t ≡ t ∷ []
unfolding split_dots onto_first
split_last [] h = refl
split_last (c ∷ t) (hc, h) = rw (hc, split_last t h) refl

split_first : (t s : Bytes) → LacksDot t → split_dots (t ++ b'.' ∷ s) ≡ t ∷ split_dots s
unfolding split_dots onto_first
split_first [] s h = refl
split_first (c ∷ t) s (hc, h) = rw (hc, split_first t s h) refl

split-join : (ts : List Bytes) → ts ≢ [] → All LacksDot ts → split_dots (join ts) ≡ ts
split-join [] ne a = absurd (ne refl)
split-join (t ∷ []) ne (l, a) = split_last t l
split-join (t ∷ u ∷ ts) ne (l, a) =
    split_first t (join (u ∷ ts)) l ∙ ap (◌∷◌ t) (split-join (u ∷ ts) (λ q. absurd (cc)) a)

AreTokens-ne_nil : (ts : List Bytes) → AreTokens ts → ts ≢ []
AreTokens-ne_nil [] h e = h
AreTokens-ne_nil (t ∷ ts) h e = cc

pub has_delimiter_iff :
    (s : Bytes) → (has_delimiter s ≡ false) ↔ All (λ c. is_delimiter c ≡ false) s
unfolding has_delimiter
has_delimiter_iff [] = ground arith
has_delimiter_iff (c ∷ s) = ground (arith, has_delimiter_iff s)

AreTokens-nil : AreTokens ([] ∷ []) → ⊥
AreTokens-nil (inl (inl (ne, h))) = ne refl
AreTokens-nil (inl (inr e)) = cc
AreTokens-nil (inr e) = cc

-- the checks of a text, all of them
validate_parts :
    (s : Bytes)
    → (validate_subject s ≡ ok tt)
      ↔ ((has_delimiter s ≡ false) × (check_tokens (split_dots s) ≡ ok tt))
unfolding validate_subject
validate_parts [] = (
  λ h. absurd (cc),
  λ (h, k). absurd (AreTokens-nil ((check_tokens_iff ([] ∷ []) (λ q. absurd (cc)) (tt, tt)).0 k)),
)
validate_parts (c ∷ s) = ground arith

-- A text is accepted as a subject exactly if no byte of it delimits arguments and it is made of tokens
-- with a dot between each two: a token is `*` or one or more bytes that are neither a dot nor a
-- wildcard, and the last one may be `>` instead.
pub validate_subject_iff :
    (s : Bytes)
    → (validate_subject s ≡ ok tt)
      ↔ (All (λ c. is_delimiter c ≡ false) s × ((ts : List Bytes) × AreTokens ts × (s ≡ join ts)))
validate_subject_iff s =
    let tokens = check_tokens_iff (split_dots s) (split_ne_nil s) (split_lacks s) in
    (
      λ h.
          let (clean, good) = (validate_parts s).0 h in
          ((has_delimiter_iff s).0 clean, (split_dots s, tokens.0 good, sym (join-split s))),
      λ (clean, (ts, good, e)).
          let same : split_dots s ≡ ts =
            ap split_dots e
            ∙ split-join ts (AreTokens-ne_nil ts good) (AreTokens-LacksDot ts good) in
          (validate_parts s).1
            ((has_delimiter_iff s).1 clean, tokens.1 (subst AreTokens (sym same) good)),
    )
