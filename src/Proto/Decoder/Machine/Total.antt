-- ===== src/Proto/Decoder/Machine/Total.antt =====
-- `decode` never panics, and three rounds of its loop are enough.
use watermelon.Prelude.{
  ℕ, ◌+◌, ◌≤◌, ◌<◌, Option, none, some, Bytes, length, drop, take, length-drop, Result, ok, err,
  >>=-eq-ok, ◌≡◌, refl, sym, ◌∙◌, arith, Bool-cases, inl, inr, ◌⊎◌, crlf, le→leb, starts_with,
  codes, ◌==◌, ok_or,
}
use watermelon.Crates.{Crates, IsLawful, index_of-crlf_room}
use watermelon.Wire.Lines.{find}
use watermelon.Proto.{ServerOp}
use watermelon.Proto.Decoder.{
  DecoderStatus, control_line, headers, payload, poisoned, DecoderError, max_msg_len,
}
use watermelon.Proto.Decoder.Control.{decode_msg, decode_hmsg, parse_bounded, read_msg, read_hmsg}
use watermelon.Proto.Decoder.Machine.{
  StreamDecoder, Round, continues, returns, panics, enter, Verb, msg, hmsg, dispatch_as, verb,
  on_line, step_line, step_in, step,
}

-- A payload that is announced is within the limit.
abbrev pub IsWithin : DecoderStatus → Type 0
IsWithin (headers i s r h n) = n ≤ max_msg_len
IsWithin (payload i s r c d m n) = n ≤ max_msg_len
IsWithin _ = Unit

-- how many rounds a call may still make
abbrev pub rank : DecoderStatus → ℕ
rank (control_line n) = 3
rank (headers i s r h n) = 2
rank _ = 1

parse_bounded-le : (buf : Bytes) {n : ℕ} → parse_bounded buf ≡ ok n → n ≤ max_msg_len
unfolding parse_bounded
parse_bounded-le buf h = ground arith

pub rank_max : (s : DecoderStatus) → rank s ≤ 3
rank_max (control_line n) = omega arith
rank_max (headers i s r h n) = omega arith
rank_max (payload i s r c d m n) = omega arith
rank_max poisoned = omega arith

pub Round-cases :
    {I : Type 0} (o : Round I)
    → ((d : StreamDecoder) × (o ≡ continues d))
      ⊎ (((d : StreamDecoder) × (r : Result DecoderError (Option (ServerOp I))) × (o ≡ returns d r))
          ⊎ (o ≡ panics))
Round-cases (continues d) = inl (d, refl)
Round-cases (returns d r) = inr (inl (d, r, refl))
Round-cases panics = inr (inr refl)

module _ {I C : Type 0} (crates : Crates I C) where
  read_msg-IsWithin :
      (args : Bytes × Bytes × Option Bytes × Bytes) {s : DecoderStatus}
      → read_msg crates args ≡ ok s
      → IsWithin s × (rank s ≤ 1)
  unfolding read_msg
  read_msg-IsWithin (subject, i, reply_to, len) h = ground arith

  read_hmsg-IsWithin :
      (args : Bytes × Bytes × Option Bytes × Bytes × Bytes) {s : DecoderStatus}
      → read_hmsg crates args ≡ ok s
      → IsWithin s × (rank s ≤ 2)
  unfolding read_hmsg
  read_hmsg-IsWithin (subject, i, reply_to, header, total) h = ground arith

-- What a round leaves behind: the invariant, fewer rounds to go, and no more bytes than before.
abbrev pub Leaves : {I : Type 0} → StreamDecoder → Round I → Type 0
Leaves d (continues d') =
    IsWithin d'.status × (rank d'.status < rank d.status) × (length d'.read_buf ≤ length d.read_buf)
Leaves d (returns d' r) = IsWithin d'.status × (length d'.read_buf ≤ length d.read_buf)
Leaves d panics = ⊥

module _ {I C : Type 0} (crates : Crates I C) where
  decode_msg-IsWithin :
      (line : Bytes) (s : DecoderStatus) → decode_msg crates line ≡ ok s → IsWithin s × (rank s ≤ 2)
  unfolding decode_msg
  decode_msg-IsWithin line s h =
      let (args, read, found) = >>=-eq-ok (read_msg crates) (ok_or _ _) (sym h) in
      let (within, le) = read_msg-IsWithin crates args (sym read) in (within, omega arith)

  decode_hmsg-IsWithin :
      (line : Bytes) (s : DecoderStatus)
      → decode_hmsg crates line ≡ ok s
      → IsWithin s × (rank s ≤ 2)
  unfolding decode_hmsg
  decode_hmsg-IsWithin line s h =
      let (args, read, found) = >>=-eq-ok (read_hmsg crates) (ok_or _ _) (sym h) in
      read_hmsg-IsWithin crates args (sym read)

  -- a line that is entered as a status, or refused
  enter-Leaves :
      (d d' : StreamDecoder) (r : Result DecoderError DecoderStatus)
      → rank d.status ≡ 3
      → IsWithin d'.status
      → length d'.read_buf ≤ length d.read_buf
      → ((s : DecoderStatus) → r ≡ ok s → IsWithin s × (rank s ≤ 2))
      → Leaves d (enter crates d' r)
  unfolding enter
  enter-Leaves d d' (ok s) three w le h = let (within, two) = h s refl in (within, omega arith, le)
  enter-Leaves d d' (err e) three w le h = (w, le)

  dispatch_as-Leaves :
      (v : Verb) (d d' : StreamDecoder) (line : Bytes)
      → rank d.status ≡ 3
      → IsWithin d'.status
      → length d'.read_buf ≤ length d.read_buf
      → Leaves d (dispatch_as crates v d' line)
  unfolding dispatch_as
  dispatch_as-Leaves msg d d' line three w le =
      enter-Leaves d d' (decode_msg crates line) three w le (decode_msg-IsWithin line)
  dispatch_as-Leaves hmsg d d' line three w le =
      enter-Leaves d d' (decode_hmsg crates line) three w le (decode_hmsg-IsWithin line)
  dispatch_as-Leaves _ d d' line three w le = (w, le)

module _ {I C : Type 0} (crates : Crates I C) (laws : IsLawful crates) where
  on_line-Leaves :
      (d : StreamDecoder) (found : Option ℕ)
      → find crates d.read_buf ≡ found
      → rank d.status ≡ 3
      → IsWithin d.status
      → Leaves d (on_line crates d found)
  unfolding on_line find
  on_line-Leaves d none e three w = ground arith
  on_line-Leaves d (some i) e three w =
      let room : i + 2 ≤ length d.read_buf =
        index_of-crlf_room d.read_buf i (sym (laws.memmem_first crlf d.read_buf) ∙ e) in
      let shorter : length (drop (i + 2) d.read_buf) ≤ length d.read_buf =
        omega (arith, length-drop (i + 2) d.read_buf) in
      let rest : StreamDecoder = record d { read_buf = drop (i + 2) d.read_buf } in
      rw (le→leb room) (
        dispatch_as-Leaves crates (verb (take i d.read_buf)) d rest (take i d.read_buf) three w
          shorter)

  step_in-Leaves :
      (s : DecoderStatus) (d : StreamDecoder)
      → d.status ≡ s
      → IsWithin s
      → Leaves d (step_in crates s d)
  unfolding step_in
  step_in-Leaves (control_line n) d e w =
      elim (Bool-cases (starts_with (codes "+OK\r\n") d.read_buf)) [
        | inl quick ↦ rw (quick, step_line) (rw e tt, omega (arith, length-drop 5 d.read_buf))
        | inr slow ↦ elim (Bool-cases (n == length d.read_buf)) [
          | inl same ↦ rw (slow, same, step_line) (rw e tt, omega arith)
          | inr new_bytes ↦
              rw (slow, new_bytes, step_line)
                (on_line-Leaves d (find crates d.read_buf) refl (rw e refl) (rw e tt))
        ]
      ]
  step_in-Leaves (headers i s r h n) d e w = ground (arith, length-drop h d.read_buf)
  step_in-Leaves (payload i s r c x m n) d e w =
      ground (arith, length-drop n d.read_buf, length-drop 2 (drop n d.read_buf))
  step_in-Leaves poisoned d e w = ground arith

  pub step-Leaves : (d : StreamDecoder) → IsWithin d.status → Leaves d (step crates d)
  unfolding step
  step-Leaves d w = step_in-Leaves d.status d refl w
