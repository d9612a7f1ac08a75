-- ===== src/Tests/Writing.antt =====
-- The theorems on writing, on headers and on numbers at concrete inputs.
use watermelon.Prelude.{
  [], ◌∷◌, ◌++◌, List, some, Bytes, codes, length, take, drop, true, false, ◌≡◌, ◌≢◌, ◌↔◌, refl,
  arith, ok, err, ◌≤◌, ◌<◌, All, Ordering,
}
use watermelon.OrdMap.Order.{IsOrder}
use watermelon.OrdMap.Laws.{if_eq}
use watermelon.Wire.Uint.{parse_unsigned}
use watermelon.Wire.Uint.Laws.{IsDigit, value, parse_unsigned_complete}
use watermelon.Wire.Uint
use watermelon.Subject.{validate_subject, is_delimiter}
use watermelon.Subject.Grammar.{AreTokens, join, validate_subject_iff}
use watermelon.QueueGroup.{QueueGroup}
use watermelon.StatusCode.{StatusCode}
use watermelon.StatusCode
use watermelon.Headers.Name.{HeaderName}
use watermelon.Headers.Value.{HeaderValue}
use watermelon.Headers.Map.{HeaderMap, get_all, insert, append, remove, keys_len, has_no_keys}
use watermelon.Headers.Map
use watermelon.Headers.Map.Laws.{total, get_all_laws, len_total, run, appends, removes, new-IsValid}
use watermelon.BufList.{BufList, all_bytes}
use watermelon.BufList.Content
use watermelon.Proto.{ClientOp}
use watermelon.Proto
use watermelon.Proto.Encoder.{encode}
use watermelon.Proto.Encoder.Wire.{wire, encode_appends}
use watermelon.Proto.Encoder.Framed.{frame_encoder, frame_encoder-IsFrameEncoder}
use watermelon.Connection.{StreamingConnection, ready, offered, poll_write_next}
use watermelon.Connection.Writes.{poll_write_next-ready}
use watermelon.Proto.Encoder.Stream.{StreamEncoder}
use watermelon.Proto.Encoder.Stream
use watermelon.Proto.Encoder.Stream.Pending.{pending, IsQueue}
use watermelon.Proto.Encoder.Stream.Copies.{copy_to_bytes-pending}
use watermelon.Proto.Encoder.Stream.Runs
use watermelon.Tests.Instance.{crates, bytes_cmp-IsOrder}
use watermelon.Handler.{bytes_cmp}

-- names in the order of their bytes
abbrev name_cmp : HeaderName → HeaderName → Ordering
name_cmp a b = bytes_cmp a.text b.text

name_cmp-IsOrder : IsOrder name_cmp
name_cmp-IsOrder = record {
  eq_refl = λ a. bytes_cmp-IsOrder.eq_refl a.text;
  eq_sym = λ a b. bytes_cmp-IsOrder.eq_sym a.text b.text;
  eq_left = λ a b c. bytes_cmp-IsOrder.eq_left a.text b.text c.text;
  lt_trans = λ a b c. bytes_cmp-IsOrder.lt_trans a.text b.text c.text;
  gt_lt = λ a b. bytes_cmp-IsOrder.gt_lt a.text b.text;
  lt_gt = λ a b. bytes_cmp-IsOrder.lt_gt a.text b.text;
}

abbrev accept : HeaderName
accept = record { text = codes "Accept" }

abbrev yes : HeaderValue
yes = record { inner = codes "yes" }

get_all_laws_example :
    (get_all name_cmp accept (append name_cmp accept yes Map.new)
      ≡ if_eq
          (name_cmp accept accept)
          (get_all name_cmp accept Map.new ++ yes ∷ [])
          (get_all name_cmp accept Map.new))
    × (get_all name_cmp accept (insert name_cmp accept yes Map.new)
        ≡ if_eq (name_cmp accept accept) (yes ∷ []) (get_all name_cmp accept Map.new))
    × (get_all name_cmp accept (remove name_cmp accept Map.new)
        ≡ if_eq (name_cmp accept accept) [] (get_all name_cmp accept Map.new))
get_all_laws_example =
    get_all_laws name_cmp name_cmp-IsOrder accept accept yes Map.new
      (new-IsValid name_cmp name_cmp-IsOrder)

abbrev stored : HeaderMap
stored =
    run name_cmp
      (appends accept yes ∷ appends accept yes ∷ removes accept ∷ appends accept yes ∷ []) Map.new

len_total_example :
    (stored.len ≡ total stored.headers)
    × (keys_len stored ≤ stored.len)
    × ((has_no_keys stored ≡ true) ↔ (stored.len ≡ 0))
len_total_example =
    len_total name_cmp name_cmp-IsOrder
      (appends accept yes ∷ appends accept yes ∷ removes accept ∷ appends accept yes ∷ [])

abbrev two_bufs : BufList
two_bufs = record { bufs = codes "abc" ∷ codes "de" ∷ []; len = 5 }

two_bufs-IsValid : Content.IsValid two_bufs
two_bufs-IsValid =
    unfold all_bytes in
    record { filled = ((λ q. absurd (cc)), ((λ q. absurd (cc)), tt)); counted = refl }

abbrev queue : StreamEncoder
queue = record { write_buf = two_bufs; flattened_writes = codes "fg" }

copy_to_bytes-pending_example :
    (e' : StreamEncoder) × (Stream.copy_to_bytes 6 queue ≡ some (take 6 (pending queue), e'))
    × IsQueue e'
    × (pending e' ≡ drop 6 (pending queue))
copy_to_bytes-pending_example =
    copy_to_bytes-pending 6 queue two_bufs-IsValid (unfold Stream.remaining in omega arith)

abbrev open_connection : StreamingConnection
open_connection = record { encoder = queue; may_flush = false; sent = codes "x" }

poll_write_next-ready_example :
    (c' : StreamingConnection) × (poll_write_next true (ready 6) open_connection
      ≡ some (c', ready 6))
    × IsQueue c'.encoder
    × (c'.sent ≡ codes "x" ++ take 6 (pending queue))
    × (pending c'.encoder ≡ drop 6 (pending queue))
unfolding all_bytes
poll_write_next-ready_example =
    poll_write_next-ready true 6 open_connection two_bufs-IsValid (unfold offered in omega arith)

abbrev ping_op : ClientOp Bytes
ping_op = Proto.ClientOp.ping

abbrev drained : StreamEncoder
drained = record {
  write_buf = record { bufs = []; len = 0 };
  flattened_writes = codes "NG\r\nPONG\r\n";
}

encode_appends_example :
    (encode crates frame_encoder
      (Proto.ClientOp.unsubscribe (record { id = 7 }) (some 3))
      (record { buf = [] })).buf
    ≡ [] ++ wire crates (Proto.ClientOp.unsubscribe (record { id = 7 }) (some 3))
encode_appends_example =
    encode_appends crates frame_encoder (λ _. Unit {0}) (λ e. e.buf) frame_encoder-IsFrameEncoder
      (Proto.ClientOp.unsubscribe (record { id = 7 }) (some 3)) (record { buf = [] })

parse_unsigned_complete_example :
    (value 0 (codes "300") ≤ 255 → parse_unsigned 255 (codes "300") ≡ ok (value 0 (codes "300")))
    × (255 < value 0 (codes "300")
        → parse_unsigned 255 (codes "300") ≡ err Uint.ParseUintError.overflow)
parse_unsigned_complete_example =
    parse_unsigned_complete 255 (codes "300") (λ q. absurd (cc)) (refl, (refl, (refl, tt)))

validate_subject_iff_example : (validate_subject (codes "a.*.>") ≡ ok tt) ↔ (
    All (λ c. is_delimiter c ≡ false) (codes "a.*.>")
    × ((ts : List Bytes) × AreTokens ts × (codes "a.*.>" ≡ join ts)))
validate_subject_iff_example = validate_subject_iff (codes "a.*.>")

abbrev workers : QueueGroup
workers = record { text = codes "workers" }

abbrev fifty_five : StatusCode
fifty_five = record { code = 55 }

from_ascii_bytes_iff_example : (StatusCode.from_ascii_bytes (codes "055") ≡ ok fifty_five) ↔ (
    (length (codes "055") ≡ 3)
    × All IsDigit (codes "055")
    × (fifty_five.code ≡ value 0 (codes "055"))
    × (fifty_five.code ≢ 0))
from_ascii_bytes_iff_example = StatusCode.from_ascii_bytes_iff (codes "055") fifty_five
