-- ===== src/BufList.antt =====
-- watermelon-proto/src/util/buf_list.rs, at `B = Bytes`. A failed `assert!` or `unwrap` is `none`.
pub mod Content
use watermelon.Prelude.{
  ℕ, zero, suc, ◌+◌, ◌-◌, Bool, not, List, [], ◌∷◌, ◌++◌, Option, none, some, Bytes, is_empty, leb,
  ltb, ◌==◌, if◌then◌else◌, length, take, drop, compare, Ordering,
}

pub record BufList : Type 0 where
  pub bufs : List Bytes
  pub len : ℕ

unfoldable pub new : BufList
new = record { bufs = []; len = 0 }

unfoldable pub push : Bytes → BufList → BufList
push buf b = record { bufs = b.bufs ++ buf ∷ []; len = b.len + length buf }

unfoldable pub remaining : BufList → ℕ
remaining b = b.len

unfoldable pub has_remaining : BufList → Bool
has_remaining b = not (is_empty b.bufs)

front : List Bytes → Bytes
front [] = []
front (buf ∷ bufs) = buf

unfoldable pub chunk : BufList → Bytes
unfolding front
chunk b = front b.bufs

-- the loop of `advance`; a round that goes on removes the front, so it recurs on the list
unfoldable pub advance_bufs : List Bytes → ℕ → ℕ → Option BufList
advance_bufs [] len cnt = if cnt == 0 then some (record { bufs = []; len = len }) else none
advance_bufs (entry ∷ bufs) len cnt =
    let stop = some (record { bufs = entry ∷ bufs; len = len }) in
    let cut = some (record { bufs = drop cnt entry ∷ bufs; len = len - cnt }) in
    let pop = advance_bufs bufs (len - length entry) (cnt - length entry) in
    if cnt == 0 then stop else if ltb cnt (length entry) then cut else pop

unfoldable pub advance : ℕ → BufList → Option BufList
unfolding advance_bufs
advance cnt b = if leb cnt b.len then advance_bufs b.bufs b.len cnt else none

-- the bytes that `chunk` and `advance` show one after the other, which `BufMut::put` copies
unfoldable pub all_bytes : List Bytes → Bytes
all_bytes [] = []
all_bytes (buf ∷ bufs) = buf ++ all_bytes bufs

-- `bufs.put(self.take(len))`: the first `len` bytes, which are consumed
unfoldable pub put_taken : ℕ → BufList → Option (Bytes × BufList)
unfolding advance all_bytes
put_taken len b = elim (advance len b) [
  | none ↦ none
  | some rest ↦ some (take len (all_bytes b.bufs), rest)
]

copy_front : List Bytes → ℕ → BufList → Option (Bytes × BufList)
unfolding put_taken
copy_front [] len b = put_taken len b
copy_front (first ∷ bufs) len b = elim (compare (length first) len) [
  | Ordering.gt ↦ some (take len first, record { bufs = drop len first ∷ bufs; len = b.len - len })
  | Ordering.eq ↦ some (first, record { bufs = bufs; len = b.len - len })
  | Ordering.lt ↦ put_taken len b
]

unfoldable pub copy_to_bytes : ℕ → BufList → Option (Bytes × BufList)
unfolding copy_front
copy_to_bytes len b = if leb len b.len then copy_front b.bufs len b else none

-- `chunks_vectored`: the slices put into a destination with room for `room`; one buffer fills one
-- slice if it has bytes
unfoldable pub vectored : ℕ → List Bytes → List Bytes
vectored zero bufs = []
vectored (suc room) [] = []
vectored (suc room) (buf ∷ bufs) =
    let same = vectored (suc room) bufs in
    let more = buf ∷ vectored room bufs in if is_empty buf then same else more
