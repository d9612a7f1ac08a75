-- ===== src/Proto/Encoder/Stream.antt =====
-- watermelon-proto/src/proto/encoder/stream.rs: operations queued for a byte stream. A failed
-- `assert!` is `none`.
pub mod Pending
pub mod Copies
pub mod Runs
use watermelon.Prelude.{
  ℕ, ◌+◌, ◌-◌, min, Bool, ◌||◌, not, [], ◌++◌, List, Option, none, some, Bytes, is_empty, leb, ltb,
  ◌==◌, if◌then◌else◌, length, take, drop, ◌∷◌,
}
use watermelon.Crates.{Crates}
use watermelon.BufList.{BufList}
use watermelon.BufList
use watermelon.Proto.{ClientOp}
use watermelon.Proto.Encoder.{FrameEncoder, encode}

abbrev write_flatten_threshold : ℕ
write_flatten_threshold = 4096

pub record StreamEncoder : Type 0 where
  pub write_buf : BufList
  pub flattened_writes : Bytes

unfoldable pub new : StreamEncoder
unfolding BufList.new
new = record { write_buf = BufList.new; flattened_writes = [] }

unfoldable pub small_write : Bytes → StreamEncoder → StreamEncoder
small_write buf e = record e { flattened_writes = e.flattened_writes ++ buf }

-- what is flattened goes to the list first, if there is any
unfoldable pub flush_flattened : StreamEncoder → StreamEncoder
unfolding BufList.push
flush_flattened e =
    if is_empty e.flattened_writes
    then e
    else record { write_buf = BufList.push e.flattened_writes e.write_buf; flattened_writes = [] }

push_write : Bytes → StreamEncoder → StreamEncoder
unfolding BufList.push
push_write b e = record e { write_buf = BufList.push b e.write_buf }

unfoldable pub write : Bytes → StreamEncoder → StreamEncoder
unfolding flush_flattened push_write
write b e =
    if length b == 0
    then e
    else if ltb (length b) write_flatten_threshold
    then record e { flattened_writes = e.flattened_writes ++ b }
    else push_write b (flush_flattened e)

abbrev pub frame_encoder : FrameEncoder StreamEncoder
frame_encoder = record { small_write = small_write; write = write }

unfoldable pub enqueue_write_op :
    {I C : Type 0} → Crates I C → ClientOp C → StreamEncoder → StreamEncoder
unfolding encode
enqueue_write_op crates item e = encode crates frame_encoder item e

unfoldable pub remaining : StreamEncoder → ℕ
unfolding BufList.remaining
remaining e = BufList.remaining e.write_buf + length e.flattened_writes

unfoldable pub has_remaining : StreamEncoder → Bool
unfolding BufList.has_remaining
has_remaining e = BufList.has_remaining e.write_buf || not (is_empty e.flattened_writes)

unfoldable pub chunk : StreamEncoder → Bytes
unfolding BufList.chunk
chunk e =
    let front = BufList.chunk e.write_buf in if is_empty front then e.flattened_writes else front

-- the slices for a destination with room for `room`
unfoldable pub vectored : ℕ → StreamEncoder → List Bytes
unfolding BufList.vectored
vectored room e =
    let slices = BufList.vectored room e.write_buf.bufs in
    slices ++ BufList.vectored (room - length slices) (e.flattened_writes ∷ [])

-- `rem` bytes of `flattened_writes` are dropped; `clear` and `advance` come to the same
pub consume_flattened : ℕ → Bytes → Bytes
consume_flattened rem flattened = if rem == length flattened then [] else drop rem flattened

unfoldable pub advance : ℕ → StreamEncoder → Option StreamEncoder
unfolding BufList.advance consume_flattened remaining
advance cnt e =
    if not (leb cnt (remaining e))
    then none
    else let mid = min (BufList.remaining e.write_buf) cnt in
      elim (BufList.advance mid e.write_buf) [
        | none ↦ none
        | some write_buf ↦ some (record {
          write_buf = write_buf;
          flattened_writes = consume_flattened (cnt - mid) e.flattened_writes;
        })
      ]

-- the first branch: the list holds all that is asked for
copy_list : Option (Bytes × BufList) → StreamEncoder → Option (Bytes × StreamEncoder)
copy_list none e = none
copy_list (some (b, write_buf)) e = some (b, record e { write_buf = write_buf })

-- the last branch: all of the list, and `rem` bytes of what is flattened
copy_both : Option (Bytes × BufList) → ℕ → StreamEncoder → Option (Bytes × StreamEncoder)
unfolding consume_flattened
copy_both none rem e = none
copy_both (some (b, write_buf)) rem e = some (
  b ++ take rem e.flattened_writes,
  record { write_buf = write_buf; flattened_writes = consume_flattened rem e.flattened_writes },
)

unfoldable pub copy_to_bytes : ℕ → StreamEncoder → Option (Bytes × StreamEncoder)
unfolding BufList.copy_to_bytes BufList.put_taken copy_list copy_both remaining
copy_to_bytes len e =
    if not (leb len (remaining e))
    then none
    else if leb len (BufList.remaining e.write_buf)
    then copy_list (BufList.copy_to_bytes len e.write_buf) e
    else if not (BufList.has_remaining e.write_buf)
    then some
        (take len e.flattened_writes, record e { flattened_writes = drop len e.flattened_writes })
    else copy_both (BufList.put_taken (BufList.remaining e.write_buf) e.write_buf)
        (len - BufList.remaining e.write_buf) e
