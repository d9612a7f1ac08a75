-- ===== src/Proto/Encoder/Wire.antt =====
-- The text of a client operation, written out, and that `encode` appends it whatever the encoder.
use watermelon.Prelude.{
  ℕ, ◌+◌, List, [], ◌∷◌, ◌++◌, Option, none, some, Bytes, codes, crlf, length, ◌≡◌, refl, sym, ap,
  ◌∙◌, arith, if◌then◌else◌, append_assoc, append-nil, length-append, Bool-cases, inl, inr,
}
use watermelon.Crates.{Crates}
use watermelon.Headers.Name.{HeaderName}
use watermelon.Headers.Value.{HeaderValue}
use watermelon.Headers.Map.{HeaderMap, iter, has_no_keys}
use watermelon.Proto.{MessageBase, ClientOp, connect, publish, subscribe, unsubscribe, ping, pong}
use watermelon.Subject.{Subject}
use watermelon.QueueGroup.{QueueGroup}
use watermelon.Proto.Encoder.{
  FrameEncoder, IsFrameEncoder, value_pieces, header_pieces, encode_headers, sum_lengths, optional,
  write_pieces, lengths_and_headers, reply_text, group_text, encode_publish, encode_subscribe,
  max_text, encode_unsubscribe, encode,
}

-- One line for each value, `name: value`.
abbrev pub value_lines : HeaderName → List HeaderValue → Bytes
value_lines name [] = []
value_lines name (value ∷ values) =
    name.text ++ (codes ": " ++ (value.inner ++ (crlf ++ value_lines name values)))

abbrev pub header_text : List (HeaderName × List HeaderValue) → Bytes
header_text [] = []
header_text ((name, values) ∷ headers) = value_lines name values ++ header_text headers

-- The header block: the version line, the headers, and an empty line.
abbrev pub header_block : HeaderMap → Bytes
header_block h = codes "NATS/1.0\r\n" ++ (header_text (iter h) ++ crlf)

-- An argument with a space behind it, or nothing.
abbrev pub argument : Option Bytes → Bytes
argument none = []
argument (some arg) = arg ++ codes " "

abbrev pub subject_text : Option Subject → Option Bytes
subject_text none = none
subject_text (some s) = some s.text

abbrev pub queue_group_text : Option QueueGroup → Option Bytes
queue_group_text none = none
queue_group_text (some g) = some g.text

module _ {I C : Type 0} (crates : Crates I C) where
  open crates use {itoa, to_json}

  -- a space and the number, or nothing
  abbrev pub limit_text : Option ℕ → Bytes
  limit_text none = []
  limit_text (some n) = codes " " ++ itoa n

  -- what stands between the arguments and the payload
  abbrev pub lengths_text : MessageBase → Bytes
  lengths_text m =
      if has_no_keys m.headers
      then itoa (length m.payload) ++ crlf
      else let block = header_block m.headers in
        itoa (length block)
        ++ (codes " " ++ (itoa (length block + length m.payload) ++ (crlf ++ block)))

  abbrev pub wire : ClientOp C → Bytes
  wire (publish m) =
      (if has_no_keys m.headers then codes "PUB " else codes "HPUB ")
      ++ (m.subject.text
          ++ (codes " "
              ++ (argument (subject_text m.reply_subject)
                  ++ (lengths_text m ++ (m.payload ++ crlf)))))
  wire (subscribe i subject queue_group) =
      codes "SUB "
      ++ (subject.text
          ++ (codes " " ++ (argument (queue_group_text queue_group) ++ (itoa i.id ++ crlf))))
  wire (unsubscribe i max_messages) =
      codes "UNSUB " ++ (itoa i.id ++ (limit_text max_messages ++ crlf))
  wire (connect c) = codes "CONNECT " ++ (to_json c ++ crlf)
  wire ping = codes "PING\r\n"
  wire pong = codes "PONG\r\n"

-- the pieces, joined
joined : List Bytes → Bytes
joined [] = []
joined (s ∷ pieces) = s ++ joined pieces

joined-append : (xs ys : List Bytes) → joined (xs ++ ys) ≡ joined xs ++ joined ys
unfolding joined
joined-append [] ys = refl
joined-append (x ∷ xs) ys = rw (joined-append xs ys, append_assoc)

sum_lengths-joined :
    (n : ℕ) (pieces : List Bytes) → sum_lengths n pieces ≡ n + length (joined pieces)
unfolding sum_lengths joined
sum_lengths-joined n [] = omega arith
sum_lengths-joined n (s ∷ pieces) =
    omega (arith, sum_lengths-joined (n + length s) pieces, length-append s (joined pieces))

value_pieces-joined :
    (name : HeaderName) (values : List HeaderValue)
    → joined (value_pieces name values) ≡ value_lines name values
unfolding value_pieces joined
value_pieces-joined name [] = refl
value_pieces-joined name (v ∷ vs) =
    ap (λ t. name.text ++ (codes ": " ++ (v.inner ++ (crlf ++ t)))) (value_pieces-joined name vs)

header_pieces-joined :
    (hs : List (HeaderName × List HeaderValue)) → joined (header_pieces hs) ≡ header_text hs
unfolding header_pieces joined
header_pieces-joined [] = refl
header_pieces-joined ((name, vs) ∷ hs) =
    joined-append (value_pieces name vs) (header_pieces hs)
    ∙ ap (λ t. t ++ joined (header_pieces hs)) (value_pieces-joined name vs)
    ∙ ap (◌++◌ (value_lines name vs)) (header_pieces-joined hs)

encode_headers-joined : (h : HeaderMap) → joined (encode_headers h) ≡ header_block h
unfolding encode_headers joined
encode_headers-joined h = ap (◌++◌ (codes "NATS/1.0\r\n")) (
    joined-append (header_pieces (iter h)) (crlf ∷ [])
    ∙ ap (λ t. t ++ crlf) (header_pieces-joined (iter h)))

-- The length that `encode` declares for the headers is that of the block that it writes.
pub headers_len : (h : HeaderMap) → sum_lengths 0 (encode_headers h) ≡ length (header_block h)
headers_len h =
    omega (arith, sum_lengths-joined 0 (encode_headers h), ap length (encode_headers-joined h))

reply_text_lem : (o : Option Subject) → reply_text o ≡ subject_text o
unfolding reply_text
reply_text_lem none = refl
reply_text_lem (some s) = refl

group_text_lem : (o : Option QueueGroup) → group_text o ≡ queue_group_text o
unfolding group_text
group_text_lem none = refl
group_text_lem (some s) = refl

module _ {I C E : Type 0} (crates : Crates I C) (f : FrameEncoder E) (Inv : E → Type 0)
    (written : E → Bytes) (laws : IsFrameEncoder f Inv written) where
  open laws use {keeps_small, keeps, small_appends, appends}

  optional_appends :
      (o : Option Bytes) (e : E) → written (optional crates f o e) ≡ written e ++ argument o
  unfolding optional
  optional_appends none e = sym (append-nil (written e))
  optional_appends (some arg) e = simp (small_appends, append_assoc)

  write_pieces-appends :
      (ps : List Bytes) (e : E) → written (write_pieces crates f ps e) ≡ written e ++ joined ps
  unfolding write_pieces joined
  write_pieces-appends [] e = sym (append-nil (written e))
  write_pieces-appends (s ∷ ps) e = simp (write_pieces-appends ps, small_appends, append_assoc)

  lengths_appends :
      (m : MessageBase) (e : E)
      → written (lengths_and_headers crates f m e) ≡ written e ++ lengths_text crates m
  unfolding lengths_and_headers
  lengths_appends m e = elim (Bool-cases (has_no_keys m.headers)) [
    | inl bare ↦ rw bare (simp (small_appends, append_assoc))
    | inr some_keys ↦ rw some_keys (
        simp
          (write_pieces-appends, small_appends, append_assoc, encode_headers-joined, headers_len))
  ]

  max_appends :
      (o : Option ℕ) (e : E) → written (max_text crates f o e) ≡ written e ++ limit_text crates o
  unfolding max_text
  max_appends none e = sym (append-nil (written e))
  max_appends (some n) e = simp (small_appends, append_assoc)

  -- Whatever the encoder, `encode` puts the text of the operation behind what is written.
  pub encode_appends :
      (op : ClientOp C) (e : E) → written (encode crates f op e) ≡ written e ++ wire crates op
  unfolding encode
  encode_appends (publish m) e =
      unfold encode_publish in
      simp (appends, small_appends, lengths_appends, optional_appends, reply_text_lem, append_assoc)
  encode_appends (subscribe i s g) e =
      unfold encode_subscribe in
      simp (small_appends, optional_appends, group_text_lem, append_assoc)
  encode_appends (unsubscribe i o) e =
      unfold encode_unsubscribe in simp (small_appends, max_appends, append_assoc)
  encode_appends (connect c) e = simp (small_appends, append_assoc)
  encode_appends ping e = small_appends (codes "PING\r\n") e
  encode_appends pong e = small_appends (codes "PONG\r\n") e

  optional-Inv : (o : Option Bytes) (e : E) → Inv e → Inv (optional crates f o e)
  unfolding optional
  optional-Inv none e i = i
  optional-Inv (some arg) e i = keeps_small _ _ (keeps_small arg e i)

  write_pieces-Inv : (ps : List Bytes) (e : E) → Inv e → Inv (write_pieces crates f ps e)
  unfolding write_pieces
  write_pieces-Inv [] e i = i
  write_pieces-Inv (s ∷ ps) e i = write_pieces-Inv ps _ (keeps_small s e i)

  lengths-Inv : (m : MessageBase) (e : E) → Inv e → Inv (lengths_and_headers crates f m e)
  unfolding lengths_and_headers
  lengths-Inv m e i = elim (Bool-cases (has_no_keys m.headers)) [
    | inl bare ↦ rw bare (keeps_small _ _ (keeps_small _ e i))
    | inr some_keys ↦ rw some_keys (
        write_pieces-Inv (encode_headers m.headers) _
          (keeps_small _ _ (keeps_small _ _ (keeps_small _ _ (keeps_small _ e i)))))
  ]

  max-Inv : (o : Option ℕ) (e : E) → Inv e → Inv (max_text crates f o e)
  unfolding max_text
  max-Inv none e i = i
  max-Inv (some n) e i = keeps_small _ _ (keeps_small _ e i)

  -- `encode` keeps the invariant of the encoder.
  pub encode-Inv : (op : ClientOp C) (e : E) → Inv e → Inv (encode crates f op e)
  unfolding encode encode_publish encode_subscribe encode_unsubscribe
  encode-Inv (publish m) e i = keeps_small _ _ (
      keeps _ _ (
        lengths-Inv m _ (optional-Inv _ _ (keeps_small _ _ (keeps_small _ _ (keeps_small _ e i))))))
  encode-Inv (subscribe n s g) e i =
      keeps_small _ _
        (keeps_small _ _ (optional-Inv _ _ (keeps_small _ _ (keeps_small _ _ (keeps_small _ e i)))))
  encode-Inv (unsubscribe n o) e i =
      keeps_small _ _ (max-Inv o _ (keeps_small _ _ (keeps_small _ e i)))
  encode-Inv (connect c) e i = keeps_small _ _ (keeps_small _ _ (keeps_small _ e i))
  encode-Inv ping e i = keeps_small _ e i
  encode-Inv pong e i = keeps_small _ e i
