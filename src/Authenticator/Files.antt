-- ===== src/Authenticator/Files.antt =====
-- A credentials file with text around its two sections.
use watermelon.Prelude.{
  ◌==◌, ◌||◌, Bool, false, List, [], ◌∷◌, ◌++◌, Option, none, some, Bytes, ok, All, All-append,
  append-nil, ◌≡◌, refl, sym, ap, ◌∙◌, arith,
}
use watermelon.Nkeys.{KeyCrates, KeyPair, from_encoded_seed}
use watermelon.Authenticator.{
  creds, str_lines, begin_jwt, end_jwt, begin_seed, end_seed, filler, marker, scan, assemble,
  from_creds,
}

-- a line of a text file
unfoldable pub has_line_end : Bytes → Bool
has_line_end [] = false
has_line_end (c ∷ s) = c == 10 || c == 13 || has_line_end s

abbrev pub IsLine : Bytes → Type 0
IsLine s = has_line_end s ≡ false

-- lines, each with a line feed behind it
abbrev pub unlines : List Bytes → Bytes
unlines [] = []
unlines (line ∷ lines) = line ++ 10 ∷ unlines lines

-- a line that opens no section
abbrev pub IsFiller : Bytes → Type 0
IsFiller line = marker line ≡ filler

str_lines-line :
    (line rest : Bytes) → IsLine line → str_lines (line ++ 10 ∷ rest) ≡ line ∷ str_lines rest
unfolding str_lines has_line_end
str_lines-line [] rest h = refl
str_lines-line (c ∷ line) rest h = ground (arith, str_lines-line line rest)

str_lines-unlines : (lines : List Bytes) → All IsLine lines → str_lines (unlines lines) ≡ lines
unfolding str_lines
str_lines-unlines [] h = refl
str_lines-unlines (line ∷ lines) (here, h) =
    str_lines-line line (unlines lines) here ∙ ap (λ t. line ∷ t) (str_lines-unlines lines h)

scan-filler :
    (line : Bytes) (lines : List Bytes) (jwt secret : Option Bytes)
    → IsFiller line
    → scan (line ∷ lines) jwt secret ≡ scan lines jwt secret
unfolding scan
scan-filler line [] jwt secret h = rw (h, scan)
scan-filler line (value ∷ []) jwt secret h = rw (h, scan)
scan-filler line (value ∷ closing ∷ lines) jwt secret h = rw (h, scan)

scan-fillers :
    (around lines : List Bytes) (jwt secret : Option Bytes)
    → All IsFiller around
    → scan (around ++ lines) jwt secret ≡ scan lines jwt secret
scan-fillers [] lines jwt secret h = refl
scan-fillers (line ∷ around) lines jwt secret (here, h) =
    scan-filler line (around ++ lines) jwt secret here ∙ scan-fillers around lines jwt secret h

-- the lines of a file: the section of the token, that of the seed, and text around them
abbrev pub sections : List Bytes → Bytes → List Bytes → Bytes → List Bytes → List Bytes
sections before jwt between seed after =
    before ++ begin_jwt ∷ jwt ∷ end_jwt ∷ (between ++ begin_seed ∷ seed ∷ end_seed ∷ after)

scan-sections :
    (before between after : List Bytes) (jwt seed : Bytes)
    → All IsFiller before
    → All IsFiller between
    → All IsFiller after
    → scan (sections before jwt between seed after) none none ≡ ok (some jwt, some seed)
unfolding scan
scan-sections before between after jwt seed b m a =
    scan-fillers before
      (begin_jwt ∷ jwt ∷ end_jwt ∷ (between ++ begin_seed ∷ seed ∷ end_seed ∷ after)) none none b
    ∙ scan-fillers between (begin_seed ∷ seed ∷ end_seed ∷ after) (some jwt) none m
    ∙ ap (λ lines. scan lines (some jwt) (some seed)) (sym (append-nil after))
    ∙ scan-fillers after [] (some jwt) (some seed) a

sections-lines :
    (before between after : List Bytes) (jwt seed : Bytes)
    → All IsLine before
    → All IsLine between
    → All IsLine after
    → IsLine jwt
    → IsLine seed
    → All IsLine (sections before jwt between seed after)
unfolding has_line_end
sections-lines before between after jwt seed b m a j s =
    All-append IsLine before _ b
      (refl, (j, (refl, All-append IsLine between _ m (refl, (s, (refl, a))))))

module _ {K : Type 0} (crates : KeyCrates K) where
  -- A credentials file is read as its token and the key pair of its seed, with any lines in front of,
  -- between and behind the two sections that open no section themselves.
  pub from_creds-sections :
      (before between after : List Bytes) (jwt seed : Bytes) (nkey : KeyPair K)
      → All IsFiller before
      → All IsFiller between
      → All IsFiller after
      → All IsLine before
      → All IsLine between
      → All IsLine after
      → IsLine jwt
      → IsLine seed
      → from_encoded_seed crates seed ≡ ok nkey
      → from_creds crates (unlines (sections before jwt between seed after)) ≡ ok (creds jwt nkey)
  unfolding from_creds assemble
  from_creds-sections before between after jwt seed nkey fb fm fa lb lm la lj ls found =
      let lines =
        str_lines-unlines (sections before jwt between seed after)
          (sections-lines before between after jwt seed lb lm la lj ls) in
      rw (lines, scan-sections before between after jwt seed fb fm fa, found)
