-- ===== src/Proto/Encoder/Stream/Copies.antt =====
-- `copy_to_bytes` of `StreamEncoder` takes from the front of the queue.
use watermelon.Prelude.{
  ℕ, zero, suc, ◌-◌, ◌≤◌, true, false, not, List, [], ◌∷◌, ◌++◌, Option, some, Bytes, is_empty, leb,
  length, take, drop, ◌≡◌, refl, sym, ap, ◌∙◌, arith, Bool-cases, inl, inr, take_all, take-append,
  drop-append, subst, take-append-drop,
}
use watermelon.BufList.{BufList, all_bytes}
use watermelon.BufList
use watermelon.BufList.Content.{
  content, IsValid, copy_to_bytes-content, put_taken-content, drop_past,
}
use watermelon.Proto.Encoder.Stream.{StreamEncoder, remaining, consume_flattened, copy_to_bytes}
use watermelon.Proto.Encoder.Stream.Pending.{pending, IsQueue, drop_all, consume_flattened_lem}

take_past :
    (xs ys : Bytes) (n : ℕ) → length xs ≤ n → take n (xs ++ ys) ≡ xs ++ take (n - length xs) ys
take_past [] ys n h = ap (λ k. take k ys) (omega arith)
take_past (x ∷ xs) ys zero h = absurd (omega arith)
take_past (x ∷ xs) ys (suc n) h =
    ap (◌∷◌ x) (take_past xs ys n (omega arith) ∙ ap (λ k. xs ++ take k ys) (omega arith))

has_remaining-bufs : (b : BufList) → IsValid b → BufList.has_remaining b ≡ false → content b ≡ []
unfolding BufList.has_remaining all_bytes
has_remaining-bufs b v h = ap all_bytes (nothing b.bufs h)
  where
    nothing : (bufs : List Bytes) → not (is_empty bufs) ≡ false → bufs ≡ []
    nothing [] h' = refl
    nothing (x ∷ xs) h' = cc

Copied : ℕ → StreamEncoder → Type 0
Copied len e =
    (e' : StreamEncoder) × (copy_to_bytes len e ≡ some (take len (pending e), e'))
    × IsQueue e'
    × (pending e' ≡ drop len (pending e))

module _ (len : ℕ) (e : StreamEncoder) (v : IsQueue e) (h : len ≤ remaining e) where
  -- the list holds all that is asked for
  copy_listed : leb len (BufList.remaining e.write_buf) ≡ true → Copied len e
  unfolding Copied copy_to_bytes BufList.remaining
  copy_listed all_listed =
      let listed : len ≤ e.write_buf.len = ground arith in
      let fits : len ≤ length (content e.write_buf) = omega (arith, v.counted) in
      let (b, found, kept, shape) = copy_to_bytes-content len e.write_buf v listed in
      (
        record e { write_buf = b },
        ground (arith, found, take-append len (content e.write_buf) e.flattened_writes fits),
        kept,
        rw shape (sym (drop-append len (content e.write_buf) e.flattened_writes fits)),
      )

  -- the list holds nothing
  copy_bare :
      leb len (BufList.remaining e.write_buf) ≡ false
      → BufList.has_remaining e.write_buf ≡ false
      → Copied len e
  unfolding Copied copy_to_bytes
  copy_bare more bare =
      let nothing = has_remaining-bufs e.write_buf v bare in
      (
        record e { flattened_writes = drop len e.flattened_writes },
        rw (more, bare, nothing) (ground arith),
        v,
        rw nothing refl,
      )

  -- the list holds some of it
  copy_both_parts :
      leb len (BufList.remaining e.write_buf) ≡ false
      → BufList.has_remaining e.write_buf ≡ true
      → Copied len e
  unfolding Copied copy_to_bytes BufList.remaining
  copy_both_parts more listed =
      let held = e.write_buf.len in
      let past : length (content e.write_buf) ≤ len = ground (arith, v.counted) in
      let (b, found, kept, shape) = put_taken-content held e.write_buf v (omega arith) in
      let whole : take held (content e.write_buf) ≡ content e.write_buf =
        ap (λ k. take k (content e.write_buf)) v.counted ∙ take_all (content e.write_buf) in
      let gone : content b ≡ [] =
        shape ∙ ap (λ k. drop k (content e.write_buf)) v.counted ∙ drop_all (content e.write_buf) in
      let flat = e.flattened_writes in
      let bytes : take held (content e.write_buf) ++ take (len - held) flat ≡ take len (pending e) =
        ap (λ t. t ++ take (len - held) flat) whole
        ∙ ap (λ k. content e.write_buf ++ take (len - k) flat) v.counted
        ∙ sym (take_past (content e.write_buf) flat len past) in
      (
        record {
          write_buf = b;
          flattened_writes = consume_flattened (len - held) e.flattened_writes;
        },
        ground (arith, found, bytes),
        kept,
        rw (gone, consume_flattened_lem)
            (ap (λ k. drop (len - k) e.flattened_writes) v.counted
              ∙ sym (drop_past (content e.write_buf) e.flattened_writes len past)),
      )

-- `copy_to_bytes` within what remains succeeds, returns that many bytes from the front of the queue,
-- and drops them, whether they lie in the list, in what is flattened, or in both.
pub copy_to_bytes-pending :
    (len : ℕ) (e : StreamEncoder)
    → IsQueue e
    → len ≤ remaining e
    → (e' : StreamEncoder) × (copy_to_bytes len e ≡ some (take len (pending e), e'))
      × IsQueue e'
      × (pending e' ≡ drop len (pending e))
unfolding Copied
copy_to_bytes-pending len e v h = elim (Bool-cases (leb len (BufList.remaining e.write_buf))) [
  | inl all_listed ↦ copy_listed len e v h all_listed
  | inr more ↦ elim (Bool-cases (BufList.has_remaining e.write_buf)) [
    | inl listed ↦ copy_both_parts len e v h more listed
    | inr bare ↦ copy_bare len e v h more bare
  ]
]

-- A copy that succeeds moves bytes from the front of the queue to its result.
pub moves :
    (n : ℕ) (e : StreamEncoder) (b : Bytes) (e' : StreamEncoder)
    → IsQueue e
    → copy_to_bytes n e ≡ some (b, e')
    → IsQueue e' × (b ++ pending e' ≡ pending e)
moves n e b e' v h = elim (Bool-cases (leb n (remaining e))) [
  | inl within ↦
      let (f, found, kept, shape) = copy_to_bytes-pending n e v (ground arith) in
      let same : ◌≡◌ {A = Option (Bytes × StreamEncoder)} (some (take n (pending e), f))
          (some (b, e')) =
        sym found ∙ h in
      let same_b : take n (pending e) ≡ b = cc in
      let same_e : f ≡ e' = cc in
      (
        subst IsQueue same_e kept,
        ap (◌++◌ b) (ap pending (sym same_e) ∙ shape)
            ∙ ap (λ t. t ++ drop n (pending e)) (sym same_b)
            ∙ take-append-drop n (pending e),
      )
  | inr past ↦ unfold copy_to_bytes in absurd (ground arith)
]
