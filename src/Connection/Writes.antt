-- ===== src/Connection/Writes.antt =====
-- What the writes of a connection put on the socket.
use watermelon.Prelude.{
  ℕ, zero, suc, ◌-◌, ◌≤◌, List, [], ◌∷◌, ◌++◌, some, Bytes, length, take, drop, ltb, ◌==◌, true,
  Bool, ◌≡◌, ◌⊎◌, refl, sym, ap, ◌∙◌, arith, append-nil, append_assoc, length-append, take-append,
  Bool-cases, inl, inr, ◌&&◌, All, ◌≢◌,
}
use watermelon.BufList.{all_bytes, vectored}
use watermelon.BufList
use watermelon.BufList.Content.{content, all_bytes-append}
use watermelon.Proto.Encoder.Stream.{StreamEncoder}
use watermelon.Proto.Encoder.Stream
use watermelon.Proto.Encoder.Stream.Pending.{pending, IsQueue, advance-pending, remaining-length}
use watermelon.Connection.{StreamingConnection, ready, offered, finish_write, poll_write_next}

-- slices are the front of the bytes, and all of them unless they fill the room
vectored_front :
    (room : ℕ) (bufs : List Bytes)
    → (rest : Bytes) × (all_bytes (vectored room bufs) ++ rest ≡ all_bytes bufs)
      × ((rest ≡ []) ⊎ (room ≤ length (vectored room bufs)))
unfolding vectored all_bytes
vectored_front zero bufs = (all_bytes bufs, refl, inr (omega arith))
vectored_front (suc room) [] = ([], refl, inl refl)
vectored_front (suc room) ([] ∷ bufs) = vectored_front (suc room) bufs
vectored_front (suc room) ((c ∷ buf) ∷ bufs) =
    let (rest, shape, full) = vectored_front room bufs in
    (
      rest,
      ap (◌∷◌ c) (append_assoc buf (all_bytes (vectored room bufs)) rest ∙ ap (◌++◌ buf) shape),
      elim full [ inl none_left ↦ inl none_left | inr fills ↦ inr (omega arith) ],
    )

join_all :
    (xs ys : List Bytes) (r1 r2 listed flat : Bytes)
    → all_bytes xs ++ r1 ≡ listed
    → r1 ≡ []
    → all_bytes ys ++ r2 ≡ flat
    → all_bytes (xs ++ ys) ++ r2 ≡ listed ++ flat
join_all xs ys r1 r2 listed flat s1 none_left s2 =
    ap (λ t. t ++ r2) (all_bytes-append xs ys)
    ∙ append_assoc (all_bytes xs) (all_bytes ys) r2
    ∙ ap (◌++◌ (all_bytes xs)) s2
    ∙ ap (λ t. t ++ flat)
        (sym (append-nil (all_bytes xs)) ∙ ap (◌++◌ (all_bytes xs)) (sym none_left) ∙ s1)

join_some :
    (xs ys : List Bytes) (r1 listed flat : Bytes)
    → all_bytes xs ++ r1 ≡ listed
    → ys ≡ []
    → all_bytes (xs ++ ys) ++ (r1 ++ flat) ≡ listed ++ flat
join_some xs ys r1 listed flat s1 nothing =
    ap (λ zs. all_bytes (xs ++ zs) ++ (r1 ++ flat)) nothing
    ∙ ap (λ zs. all_bytes zs ++ (r1 ++ flat)) (append-nil xs)
    ∙ sym (append_assoc (all_bytes xs) r1 flat)
    ∙ ap (λ t. t ++ flat) s1

no_room : (room : ℕ) (bufs : List Bytes) → room ≡ 0 → vectored room bufs ≡ []
unfolding vectored
no_room zero bufs h = refl
no_room (suc room) bufs h = absurd (omega arith)

-- bytes that the queue begins with
abbrev pub IsFront : Bytes → Bytes → Type 0
IsFront bytes queue = (rest : Bytes) × (bytes ++ rest ≡ queue)

slices-IsFront : (e : StreamEncoder) → IsFront (all_bytes (Stream.vectored 64 e)) (pending e)
unfolding Stream.vectored all_bytes
slices-IsFront e =
    let first = vectored 64 e.write_buf.bufs in
    let flat = e.flattened_writes in
    let second = vectored (64 - length first) (flat ∷ []) in
    let (r1, shape1, full) = vectored_front 64 e.write_buf.bufs in
    let (r2, shape2, _) = vectored_front (64 - length first) (flat ∷ []) in
    elim full [
      | inl none_left ↦ (
        r2,
        join_all first second r1 r2 (content e.write_buf) flat shape1 none_left
            (shape2 ∙ append-nil flat),
      )
      | inr fills ↦ (
        r1 ++ flat,
        join_some first second r1 (content e.write_buf) flat shape1
            (no_room (64 - length first) (flat ∷ []) (omega arith)),
      )
    ]

chunk-IsFront :
    (bufs : List Bytes) (len : ℕ) (flat : Bytes)
    → All (λ buf. buf ≢ []) bufs
    → IsFront
        (Stream.chunk
          (record { write_buf = record { bufs = bufs; len = len }; flattened_writes = flat }))
        (all_bytes bufs ++ flat)
unfolding Stream.chunk BufList.chunk all_bytes
chunk-IsFront [] len flat h = ([], append-nil flat)
chunk-IsFront ([] ∷ bufs) len flat (ne, h) = absurd (ne refl)
chunk-IsFront ((c ∷ buf) ∷ bufs) len flat h =
    (all_bytes bufs ++ flat, sym (append_assoc (c ∷ buf) (all_bytes bufs) flat))

offered-IsFront :
    (is_write_vectored : Bool) (e : StreamEncoder)
    → IsQueue e
    → IsFront (offered is_write_vectored e) (pending e)
unfolding offered
offered-IsFront is_write_vectored e v =
    elim (Bool-cases (ltb (length (Stream.chunk e)) (Stream.remaining e) && is_write_vectored)) [
      | inl slices ↦ rw slices (slices-IsFront e)
      | inr one ↦
          rw one (chunk-IsFront e.write_buf.bufs e.write_buf.len e.flattened_writes v.filled)
    ]

front_len : (s rest : Bytes) (n : ℕ) → n ≤ length s → n ≤ length (s ++ rest)
front_len s rest n h = omega (arith, length-append s rest)

-- If the socket takes some of the bytes that it is offered, in one buffer or in many, they are the
-- next bytes of the queue, and the queue goes on behind them; the write does not panic.
pub poll_write_next-ready :
    (is_write_vectored : Bool) (n : ℕ) (c : StreamingConnection)
    → IsQueue c.encoder
    → n ≤ length (offered is_write_vectored c.encoder)
    → (c' : StreamingConnection) × (poll_write_next is_write_vectored (ready n) c
        ≡ some (c', ready n))
      × IsQueue c'.encoder
      × (c'.sent ≡ c.sent ++ take n (pending c.encoder))
      × (pending c'.encoder ≡ drop n (pending c.encoder))
unfolding poll_write_next finish_write
poll_write_next-ready is_write_vectored n c v h =
    let bytes = offered is_write_vectored c.encoder in
    let (rest, shape) = offered-IsFront is_write_vectored c.encoder v in
    let all_len = remaining-length c.encoder v in
    let whole_len : length (pending c.encoder) ≡ length (bytes ++ rest) = ap length (sym shape) in
    let room : n ≤ Stream.remaining c.encoder =
      omega (arith, all_len, whole_len, front_len bytes rest n h) in
    let (e', found, kept, left) = advance-pending n c.encoder v room in
    let taken : take n bytes ≡ take n (pending c.encoder) =
      sym (take-append n bytes rest h) ∙ ap (take n) shape in
    elim (Bool-cases (Stream.remaining c.encoder == 0)) [
      | inl bare ↦
          let n0 : n ≡ 0 = ground arith in
          (
            c,
            rw bare (ap (λ k. some (c, ready k)) (sym n0)),
            v,
            sym (ap (λ k. c.sent ++ take k (pending c.encoder)) n0 ∙ append-nil c.sent),
            sym (ap (λ k. drop k (pending c.encoder)) n0),
          )
      | inr some_left ↦ (
        record { encoder = e'; may_flush = true; sent = c.sent ++ take n bytes },
        rw (some_left, found, finish_write) refl,
        kept,
        ap (◌++◌ c.sent) taken,
        left,
      )
    ]
