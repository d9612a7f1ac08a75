-- ===== src/Proto/Encoder/Stream/Pending.antt =====
-- `StreamEncoder` is a queue of bytes: operations go in behind, and the socket takes from the front.
use watermelon.Prelude.{
  ℕ, ◌-◌, ◌≤◌, min, true, false, List, [], ◌∷◌, ◌++◌, some, Bytes, is_empty, leb, ltb, ◌==◌, length,
  drop, ◌≡◌, ◌≢◌, refl, sym, ap, ◌∙◌, arith, append-nil, append_assoc, length-append, Bool-cases,
  inl, inr, drop-append,
}
use watermelon.Crates.{Crates}
use watermelon.BufList.{BufList, all_bytes}
use watermelon.BufList
use watermelon.BufList.Content.{
  content, IsValid, all_bytes-append, push-content, advance-content, drop_past,
}
use watermelon.Proto.{ClientOp}
use watermelon.Proto.Encoder.{IsFrameEncoder}
use watermelon.Proto.Encoder.Wire.{wire, encode_appends, encode-Inv}
use watermelon.Proto.Encoder.Stream.{
  StreamEncoder, new, small_write, flush_flattened, push_write, write, frame_encoder,
  enqueue_write_op, remaining, consume_flattened, advance,
}

-- the bytes queued, in order
abbrev pub pending : StreamEncoder → Bytes
pending e = content e.write_buf ++ e.flattened_writes

abbrev pub IsQueue : StreamEncoder → Type 0
IsQueue e = IsValid e.write_buf

pub new-IsQueue : IsQueue new × (pending new ≡ [])
unfolding new BufList.new all_bytes
new-IsQueue = (record { filled = tt; counted = refl }, refl)

is_empty-ne-nil : (s : Bytes) → is_empty s ≡ false → s ≢ []
is_empty-ne-nil [] h = cc
is_empty-ne-nil (c ∷ s) h = cc

is_empty-nil : (s : Bytes) → is_empty s ≡ true → s ≡ []
is_empty-nil [] h = refl
is_empty-nil (c ∷ s) h = cc

length-nil : (s : Bytes) → length s ≡ 0 → s ≡ []
length-nil [] h = refl
length-nil (c ∷ s) h = absurd (omega arith)

content-push : (buf : Bytes) (b : BufList) → content (BufList.push buf b) ≡ content b ++ buf
unfolding BufList.push all_bytes
content-push buf b = all_bytes-append b.bufs (buf ∷ []) ∙ ap (◌++◌ (content b)) (append-nil buf)

flush_pending :
    (e : StreamEncoder)
    → (content (flush_flattened e).write_buf ≡ pending e)
      × ((flush_flattened e).flattened_writes ≡ [])
      × (IsQueue e → IsQueue (flush_flattened e))
unfolding flush_flattened
flush_pending e = elim (Bool-cases (is_empty e.flattened_writes)) [
  | inl bare ↦
      let nothing = is_empty-nil e.flattened_writes bare in
      (
        rw bare (sym (ap (◌++◌ (content e.write_buf)) nothing ∙ append-nil (content e.write_buf))),
        rw bare nothing,
        λ v. rw bare v,
      )
  | inr full ↦
      let ne = is_empty-ne-nil e.flattened_writes full in
      (
        rw full (content-push e.flattened_writes e.write_buf),
        rw full refl,
        λ v. rw full (push-content e.flattened_writes e.write_buf ne v).0,
      )
]

write_pending :
    (b : Bytes) (e : StreamEncoder)
    → (pending (write b e) ≡ pending e ++ b) × (IsQueue e → IsQueue (write b e))
unfolding write push_write
write_pending b e = elim (Bool-cases (length b == 0)) [
  | inl bare ↦
      let nothing = length-nil b (ground arith) in
      (rw bare (sym (ap (◌++◌ (pending e)) nothing ∙ append-nil (pending e))), λ v. rw bare v)
  | inr some_bytes ↦ elim (Bool-cases (ltb (length b) 4096)) [
    | inl short ↦ (
      rw (some_bytes, short) (sym (append_assoc (content e.write_buf) e.flattened_writes b)),
      λ v. rw (some_bytes, short) v,
    )
    | inr long ↦
        let (moved, cleared, kept) = flush_pending e in
        let some_len : length b ≢ 0 = ground arith in
        let ne : b ≢ [] = λ nil. some_len (ap length nil) in
        (
          rw (some_bytes, long)
              (rw (cleared, append-nil)
                (content-push b (flush_flattened e).write_buf ∙ ap (λ t. t ++ b) moved)),
          λ v. rw (some_bytes, long) (push-content b (flush_flattened e).write_buf ne (kept v)).0,
        )
  ]
]

pub frame_encoder-IsFrameEncoder : IsFrameEncoder frame_encoder IsQueue pending
unfolding small_write
frame_encoder-IsFrameEncoder = record {
  keeps_small = λ b e v. v;
  keeps = λ b e v. (write_pending b e).1 v;
  small_appends = λ b e. sym (append_assoc (content e.write_buf) e.flattened_writes b);
  appends = λ b e. (write_pending b e).0;
}

module _ {I C : Type 0} (crates : Crates I C) where
  -- An operation that is queued puts its text behind what is pending, whether its payload is copied
  -- or kept as a buffer of its own, and the queue stays well formed.
  pub enqueue_pending :
      (item : ClientOp C) (e : StreamEncoder)
      → IsQueue e
      → (pending (enqueue_write_op crates item e) ≡ pending e ++ wire crates item)
        × IsQueue (enqueue_write_op crates item e)
  unfolding enqueue_write_op
  enqueue_pending item e v = (
    encode_appends crates frame_encoder IsQueue pending frame_encoder-IsFrameEncoder item e,
    encode-Inv crates frame_encoder IsQueue pending frame_encoder-IsFrameEncoder item e v,
  )

pub remaining-length : (e : StreamEncoder) → IsQueue e → remaining e ≡ length (pending e)
unfolding remaining BufList.remaining
remaining-length e v =
    omega (arith, v.counted, length-append (content e.write_buf) e.flattened_writes)

pub drop_all {ℓ} : {A : Type ℓ} (xs : List A) → drop (length xs) xs ≡ []
drop_all [] = refl
drop_all (x ∷ xs) = drop_all xs

pub consume_flattened_lem : (n : ℕ) (s : Bytes) → consume_flattened n s ≡ drop n s
unfolding consume_flattened
consume_flattened_lem n s = elim (Bool-cases (n == length s)) [
  | inl all ↦
      let e : n ≡ length s = ground arith in rw all (sym (ap (λ k. drop k s) e ∙ drop_all s))
  | inr some_left ↦ rw some_left
]

-- the most from the list, and the rest from what is flattened
drop_both :
    (xs ys : Bytes) (mid n : ℕ)
    → mid ≡ min (length xs) n
    → drop mid xs ++ drop (n - mid) ys ≡ drop n (xs ++ ys)
drop_both xs ys mid n h = elim (Bool-cases (leb n (length xs))) [
  | inl within ↦
      let le : n ≤ length xs = ground arith in
      let e : mid ≡ n = omega arith in
      let rest : n - mid ≡ 0 = omega arith in rw (rest, e) (sym (drop-append n xs ys le))
  | inr past ↦
      let le : length xs ≤ n = ground arith in
      let e : mid ≡ length xs = omega arith in rw (e, drop_all xs) (sym (drop_past xs ys n le))
]

-- `advance` within what remains succeeds, and drops that many bytes from the front of the queue.
pub advance-pending :
    (cnt : ℕ) (e : StreamEncoder)
    → IsQueue e
    → cnt ≤ remaining e
    → (e' : StreamEncoder) × (advance cnt e ≡ some e')
      × IsQueue e'
      × (pending e' ≡ drop cnt (pending e))
unfolding advance BufList.remaining
advance-pending cnt e v h =
    let mid = min e.write_buf.len cnt in
    let (b, found, kept, shape) = advance-content mid e.write_buf v (omega arith) in
    (
      record { write_buf = b; flattened_writes = consume_flattened (cnt - mid) e.flattened_writes },
      ground (arith, found),
      kept,
      rw (shape, consume_flattened_lem)
          (drop_both (content e.write_buf) e.flattened_writes mid cnt
            (ap (λ k. min k cnt) v.counted)),
    )
