-- ===== src/Proto/Decoder/HeaderBlock/Text.antt =====
-- A header block as the encoder writes it is read back by `decode_headers`.
use watermelon.Prelude.{
  ℕ, ◌<◌, ◌==◌, false, List, [], ◌∷◌, ◌++◌, none, Bytes, codes, crlf, All, All-append, ◌≡◌, refl,
  sym, ap, ◌∙◌, arith, append_assoc, ok, take_prefix, drop_prefix, is_empty,
}
use watermelon.Crates.{Crates, IsLawful, LacksCrlf, index_where_hit}
use watermelon.Wire.Lines.Laws.{render, lines-render}
use watermelon.Headers.Name.{HeaderName, IsName, is_illegal, try_from-IsName}
use watermelon.Headers.Value.{HeaderValue, IsValue, from_bytes-IsValue}
use watermelon.Headers.Map.{HeaderMap, iter, from_iter}
use watermelon.Proto.Encoder.Wire.{value_lines, header_text, header_block}
use watermelon.Proto.Decoder.Control.{to_text}
use watermelon.Proto.Decoder.HeaderBlock.{
  strip_prefix, status_code, status_description, skip_one_space, header_line, header_lines,
  names_cmp, read_block, decode_block,
}

-- A header that the checked constructors of its name and value accept.
abbrev pub IsHeader : HeaderName → HeaderValue → Type 0
IsHeader name value = IsName name.text × IsValue value.inner

abbrev pub AreHeaders : List (HeaderName × List HeaderValue) → Type 0
AreHeaders [] = Unit
AreHeaders ((name, values) ∷ headers) = All (IsHeader name) values × AreHeaders headers

-- a name with each of its values
abbrev pub each_value : HeaderName → List HeaderValue → List (HeaderName × HeaderValue)
each_value name [] = []
each_value name (value ∷ values) = (name, value) ∷ each_value name values

-- the headers one by one
abbrev pub one_by_one : List (HeaderName × List HeaderValue) → List (HeaderName × HeaderValue)
one_by_one [] = []
one_by_one ((name, values) ∷ headers) = each_value name values ++ one_by_one headers

abbrev header_of : HeaderName × HeaderValue → Bytes
header_of (name, value) = name.text ++ (codes ": " ++ value.inner)

abbrev texts : List (HeaderName × HeaderValue) → List Bytes
texts [] = []
texts (h ∷ hs) = header_of h ∷ texts hs

abbrev AllHeaders : List (HeaderName × HeaderValue) → Type 0
AllHeaders [] = Unit
AllHeaders ((name, value) ∷ hs) = IsHeader name value × AllHeaders hs

AllHeaders-append :
    (xs ys : List (HeaderName × HeaderValue))
    → AllHeaders xs
    → AllHeaders ys
    → AllHeaders (xs ++ ys)
AllHeaders-append [] ys hx hy = hy
AllHeaders-append ((n, v) ∷ xs) ys (h, hx) hy = (h, AllHeaders-append xs ys hx hy)

each_value-AllHeaders :
    (name : HeaderName) (vs : List HeaderValue)
    → All (IsHeader name) vs
    → AllHeaders (each_value name vs)
each_value-AllHeaders name [] h = tt
each_value-AllHeaders name (v ∷ vs) (h, hs) = (h, each_value-AllHeaders name vs hs)

one_by_one-AllHeaders :
    (hs : List (HeaderName × List HeaderValue)) → AreHeaders hs → AllHeaders (one_by_one hs)
one_by_one-AllHeaders [] h = tt
one_by_one-AllHeaders ((n, vs) ∷ hs) (h, r) =
    AllHeaders-append (each_value n vs) (one_by_one hs) (each_value-AllHeaders n vs h)
      (one_by_one-AllHeaders hs r)

render-append : (xs ys : List Bytes) → render (xs ++ ys) ≡ render xs ++ render ys
render-append [] ys = refl
render-append (x ∷ xs) ys = simp (render-append xs, append_assoc)

texts-append : (xs ys : List (HeaderName × HeaderValue)) → texts (xs ++ ys) ≡ texts xs ++ texts ys
texts-append [] ys = refl
texts-append (x ∷ xs) ys = ap (◌∷◌ (header_of x)) (texts-append xs ys)

value_lines-render :
    (name : HeaderName) (vs : List HeaderValue)
    → value_lines name vs ≡ render (texts (each_value name vs))
value_lines-render name [] = refl
value_lines-render name (v ∷ vs) = simp (value_lines-render name vs, append_assoc)

header_text-render :
    (hs : List (HeaderName × List HeaderValue)) → header_text hs ≡ render (texts (one_by_one hs))
header_text-render [] = refl
header_text-render ((n, vs) ∷ hs) =
    simp (value_lines-render, header_text-render hs, texts-append, render-append)

header_block-render :
    (h : HeaderMap)
    → header_block h ≡ render (codes "NATS/1.0" ∷ (texts (one_by_one (iter h)) ++ [] ∷ []))
header_block-render h = ap (◌++◌ (codes "NATS/1.0\r\n")) (
    ap (λ t. t ++ crlf) (header_text-render (iter h))
    ∙ sym (render-append (texts (one_by_one (iter h))) ([] ∷ [])))

name_lacks : (s : Bytes) → All (λ c. is_illegal c ≡ false) s → LacksCrlf s
name_lacks [] h = tt
name_lacks (c ∷ s) (hc, h) = (ground arith, name_lacks s h)

name_no_colon : (s : Bytes) → All (λ c. is_illegal c ≡ false) s → All (λ c. (c == b':') ≡ false) s
name_no_colon [] h = tt
name_no_colon (c ∷ s) (hc, h) = (ground arith, name_no_colon s h)

name_ascii : (s : Bytes) → All (λ c. is_illegal c ≡ false) s → All (λ c. c < 128) s
name_ascii [] h = tt
name_ascii (c ∷ s) (hc, h) = (ground arith, name_ascii s h)

value_lacks : (s : Bytes) → IsValue s → LacksCrlf s
value_lacks [] h = tt
value_lacks (c ∷ s) (hc, h) = (ground arith, value_lacks s h)

texts-LacksCrlf :
    (hs : List (HeaderName × HeaderValue)) → AllHeaders hs → All LacksCrlf (texts hs ++ [] ∷ [])
texts-LacksCrlf [] h = (tt, tt)
texts-LacksCrlf ((n, v) ∷ hs) ((hn, hv), h) = (
  All-append (λ c. (c == b'\r') ≡ false) n.text _ (name_lacks n.text hn.1)
      (refl, (refl, value_lacks v.inner hv)),
  texts-LacksCrlf hs h,
)

append-ne_empty : (s r : Bytes) (c : ℕ) → is_empty (s ++ c ∷ r) ≡ false
append-ne_empty [] r c = refl
append-ne_empty (b ∷ s) r c = refl

module _ {I C : Type 0} (crates : Crates I C) (laws : IsLawful crates) where
  header_line-header_of :
      (n : HeaderName) (v : HeaderValue)
      → IsHeader n v
      → header_line crates (header_of (n, v)) ≡ ok (n, v)
  unfolding header_line to_text skip_one_space
  header_line-header_of n v (hn, hv) =
      let colon =
        laws.memchr_first b':' (header_of (n, v))
        ∙ index_where_hit (λ c. c == b':') n.text (codes " " ++ v.inner) b':'
            (name_no_colon n.text hn.1) refl in
      rw (
        colon,
        take_prefix n.text (codes ": " ++ v.inner),
        drop_prefix n.text (codes ": " ++ v.inner),
        laws.ascii_utf8 n.text (name_ascii n.text hn.1),
        try_from-IsName n.text hn,
        from_bytes-IsValue v.inner hv,
      )

  header_lines-texts :
      (hs : List (HeaderName × HeaderValue))
      → AllHeaders hs
      → header_lines crates (texts hs ++ [] ∷ []) ≡ ok hs
  unfolding header_lines
  header_lines-texts [] h = refl
  header_lines-texts ((n, v) ∷ hs) ((hn, hv), h) = rw (
    append-ne_empty n.text (codes " " ++ v.inner) b':',
    header_line-header_of n v (hn, hv),
    header_lines-texts hs h,
  )

  read_block-texts :
      (hs : List (HeaderName × HeaderValue))
      → AllHeaders hs
      → read_block crates (codes "NATS/1.0" ∷ (texts hs ++ [] ∷ []))
        ≡ ok (none, none, from_iter (names_cmp crates) hs)
  unfolding read_block strip_prefix status_code status_description
  read_block-texts hs h = rw (header_lines-texts hs h)

  decode_block-render :
      (ls : List Bytes) → All LacksCrlf ls → decode_block crates (render ls) ≡ read_block crates ls
  unfolding decode_block
  decode_block-render ls h = ap (read_block crates) (lines-render crates laws ls h)

  -- A header block that the encoder writes for checked names and values is read back: no status, and
  -- the map that the headers make, one by one and in order.
  pub decode_block-header_block :
      (h : HeaderMap)
      → AreHeaders (iter h)
      → decode_block crates (header_block h)
        ≡ ok (none, none, from_iter (names_cmp crates) (one_by_one (iter h)))
  decode_block-header_block h good =
      let hs = one_by_one (iter h) in
      let items = one_by_one-AllHeaders (iter h) good in
      let head : LacksCrlf (codes "NATS/1.0") =
        (refl, (refl, (refl, (refl, (refl, (refl, (refl, (refl, tt)))))))) in
      ap (decode_block crates) (header_block-render h)
      ∙ decode_block-render (codes "NATS/1.0" ∷ (texts hs ++ [] ∷ []))
          (head, texts-LacksCrlf hs items)
      ∙ read_block-texts hs items
