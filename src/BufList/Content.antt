-- ===== src/BufList/Content.antt =====
-- A `BufList` is a byte string: what its operations do to the bytes that it holds.
use watermelon.Prelude.{
  ℕ, zero, suc, ◌+◌, ◌-◌, ◌≤◌, ◌<◌, List, [], ◌∷◌, ◌++◌, some, Bytes, length, take, drop, All, ◌≡◌,
  ◌≢◌, refl, sym, ap, ◌∙◌, arith, length-append, append-nil, append_assoc, take-append, drop-append,
  length-drop, All-append, take_prefix, drop_prefix, ltb, ◌==◌, Bool-cases, inl, inr, subst,
  Ordering, compare,
}
use watermelon.BufList.{
  BufList, new, push, remaining, advance_bufs, advance, all_bytes, put_taken, copy_front,
  copy_to_bytes,
}

-- the bytes held, in order
abbrev pub content : BufList → Bytes
content b = all_bytes b.bufs

-- No buffer is empty, and `len` counts the bytes.
pub record IsValid (b : BufList) : Type 0 where
  pub filled : All (λ buf. buf ≢ []) b.bufs
  pub counted : b.len ≡ length (content b)

pub all_bytes-append : (xs ys : List Bytes) → all_bytes (xs ++ ys) ≡ all_bytes xs ++ all_bytes ys
unfolding all_bytes
all_bytes-append [] ys = refl
all_bytes-append (x ∷ xs) ys = rw (all_bytes-append xs ys, append_assoc)

pub drop_past {ℓ} :
    {A : Type ℓ} (xs ys : List A) (n : ℕ)
    → length xs ≤ n
    → drop n (xs ++ ys) ≡ drop (n - length xs) ys
drop_past [] ys n h = ap (λ k. drop k ys) (omega arith)
drop_past (x ∷ xs) ys zero h = absurd (omega arith)
drop_past (x ∷ xs) ys (suc n) h =
    drop_past xs ys n (omega arith) ∙ ap (λ k. drop k ys) (omega arith)

drop-ne-nil : (s : Bytes) (n : ℕ) → n < length s → drop n s ≢ []
drop-ne-nil [] n h = absurd (omega arith)
drop-ne-nil (c ∷ s) zero h = cc
drop-ne-nil (c ∷ s) (suc n) h = drop-ne-nil s n (omega arith)

advance_bufs_lem :
    (bufs : List Bytes) (len cnt : ℕ)
    → All (λ buf. buf ≢ []) bufs
    → len ≡ length (all_bytes bufs)
    → cnt ≤ len
    → (b : BufList) × (advance_bufs bufs len cnt ≡ some b)
      × IsValid b
      × (content b ≡ drop cnt (all_bytes bufs))
unfolding advance_bufs all_bytes
advance_bufs_lem [] len cnt f e h =
    let zero_cnt : cnt ≡ 0 = omega (arith, e, h) in
    (
      record { bufs = []; len = len },
      ground arith,
      record { filled = tt; counted = e },
      ap (λ k. drop {A = ℕ} k []) (sym zero_cnt),
    )
advance_bufs_lem (entry ∷ bufs) len cnt (ne, f) e h = elim (Bool-cases (cnt == 0)) [
  | inl none_left ↦
      let zero_cnt : cnt ≡ 0 = ground arith in
      (
        record { bufs = entry ∷ bufs; len = len },
        ground arith,
        record { filled = (ne, f); counted = e },
        ap (λ k. drop k (entry ++ all_bytes bufs)) (sym zero_cnt),
      )
  | inr some_left ↦ elim (Bool-cases (ltb cnt (length entry))) [
    | inl inside ↦
        let less : cnt < length entry = ground arith in
        let shape = drop-append cnt entry (all_bytes bufs) (omega arith) in
        (
          record { bufs = drop cnt entry ∷ bufs; len = len - cnt },
          ground arith,
          record {
            filled = (drop-ne-nil entry cnt less, f);
            counted = omega (
              arith,
              e,
              length-append entry (all_bytes bufs),
              length-append (drop cnt entry) (all_bytes bufs),
              length-drop cnt entry,
            );
          },
          sym shape,
        )
    | inr past ↦
        let over : length entry ≤ cnt = ground arith in
        let whole = length-append entry (all_bytes bufs) in
        let (b, found, valid, shape) =
          advance_bufs_lem bufs (len - length entry) (cnt - length entry) f
            (omega (arith, e, whole)) (omega arith) in
        (b, ground (arith, found), valid, shape ∙ sym (drop_past entry (all_bytes bufs) cnt over))
  ]
]

pub new-IsValid : IsValid new
unfolding new all_bytes
new-IsValid = record { filled = tt; counted = refl }

-- `push` of a buffer with bytes puts them behind the others.
pub push-content :
    (buf : Bytes) (b : BufList)
    → buf ≢ []
    → IsValid b
    → IsValid (push buf b) × (content (push buf b) ≡ content b ++ buf)
unfolding push all_bytes
push-content buf b ne valid =
    let whole = all_bytes-append b.bufs (buf ∷ []) ∙ ap (◌++◌ (content b)) (append-nil buf) in
    (
      record {
        filled = All-append (λ x. x ≢ []) b.bufs (buf ∷ []) valid.filled (ne, tt);
        counted =
            omega (arith, valid.counted, ap length whole, length-append (all_bytes b.bufs) buf);
      },
      whole,
    )

-- `advance` within what remains succeeds, and drops that many bytes from the front.
pub advance-content :
    (cnt : ℕ) (b : BufList)
    → IsValid b
    → cnt ≤ remaining b
    → (b' : BufList) × (advance cnt b ≡ some b') × IsValid b' × (content b' ≡ drop cnt (content b))
unfolding advance remaining
advance-content cnt b valid h =
    let (b', found, kept, shape) = advance_bufs_lem b.bufs b.len cnt valid.filled valid.counted h in
    (b', ground (arith, found), kept, shape)

pub put_taken-content :
    (len : ℕ) (b : BufList)
    → IsValid b
    → len ≤ remaining b
    → (b' : BufList) × (put_taken len b ≡ some (take len (content b), b'))
      × IsValid b'
      × (content b' ≡ drop len (content b))
unfolding put_taken
put_taken-content len b valid h =
    let (b', found, kept, shape) = advance-content len b valid h in
    (b', ground (arith, found), kept, shape)

Copies : ℕ → BufList → List Bytes → Type 0
Copies len b bufs =
    (b' : BufList) × (copy_front bufs len b ≡ some (take len (content b), b'))
    × IsValid b'
    × (content b' ≡ drop len (content b))

copy_front-content :
    (bufs : List Bytes) (len : ℕ) (b : BufList)
    → bufs ≡ b.bufs
    → IsValid b
    → len ≤ b.len
    → Copies len b bufs
unfolding Copies copy_front all_bytes remaining
copy_front-content [] len b e valid h = put_taken-content len b valid h
copy_front-content (first ∷ bufs) len b e valid h = split (compare (length first) len) refl
  where
    filled : All (λ buf. buf ≢ []) (first ∷ bufs)
    filled = subst (All (λ buf. buf ≢ [])) (sym e) valid.filled

    whole : content b ≡ first ++ all_bytes bufs
    whole = ap all_bytes (sym e)

    counted : b.len ≡ length first + length (all_bytes bufs)
    counted = omega (arith, valid.counted, ap length whole, length-append first (all_bytes bufs))

    split : (o : Ordering) → compare (length first) len ≡ o → Copies len b (first ∷ bufs)
    split Ordering.lt o =
        let (b', found, kept, shape) = put_taken-content len b valid h in
        (b', rw (o, copy_front) found, kept, shape)
    split Ordering.eq o =
        let same : length first ≡ len = ground arith in
        let after : BufList = record { bufs = bufs; len = b.len - len } in
        (
          after,
          rw (o, copy_front)
              (ap (λ t. some (t, after))
                (sym (take_prefix first (all_bytes bufs))
                  ∙ ap (λ k. take k (first ++ all_bytes bufs)) same
                  ∙ ap (take len) (sym whole))),
          record { filled = filled.1; counted = omega (arith, counted, same) },
          sym (drop_prefix first (all_bytes bufs))
              ∙ ap (λ k. drop k (first ++ all_bytes bufs)) same
              ∙ ap (drop len) (sym whole),
        )
    split Ordering.gt o =
        let less : len < length first = ground arith in
        let after : BufList = record { bufs = drop len first ∷ bufs; len = b.len - len } in
        (
          after,
          rw (o, copy_front)
              (ap (λ t. some (t, after))
                (sym (take-append len first (all_bytes bufs) (omega arith))
                  ∙ ap (take len) (sym whole))),
          record {
            filled = (drop-ne-nil first len less, filled.1);
            counted = omega (
              arith,
              counted,
              length-drop len first,
              length-append (drop len first) (all_bytes bufs),
            );
          },
          sym (drop-append len first (all_bytes bufs) (omega arith)) ∙ ap (drop len) (sym whole),
        )

-- `copy_to_bytes` within what remains succeeds, returns that many bytes from the front, and drops
-- them: whether the first buffer holds more, just as many or fewer makes no difference.
pub copy_to_bytes-content :
    (len : ℕ) (b : BufList)
    → IsValid b
    → len ≤ remaining b
    → (b' : BufList) × (copy_to_bytes len b ≡ some (take len (content b), b'))
      × IsValid b'
      × (content b' ≡ drop len (content b))
unfolding copy_to_bytes Copies remaining
copy_to_bytes-content len b valid h =
    let (b', found, kept, shape) = copy_front-content b.bufs len b refl valid h in
    (b', ground (arith, found), kept, shape)
