-- ===== src/Tests/Decoding.antt =====
-- The decoder's theorems at concrete frames.
use mathlib.Core.Option
use watermelon.Prelude.{[], ◌∷◌, ◌++◌, Option, none, some, Bytes, codes, crlf, ◌≡◌, refl, arith, ok}
use watermelon.Subject.{Subject}
use watermelon.SubscriptionId.{SubscriptionId}
use watermelon.ServerError.{other}
use watermelon.Headers.Name.{HeaderName}
use watermelon.Headers.Map.{HeaderMap, one, iter, from_iter}
use watermelon.Headers.Map
use watermelon.Proto.{ServerOp}
use watermelon.Proto
use watermelon.Proto.Encoder.Wire.{header_block}
use watermelon.Proto.Decoder.{control_line}
use watermelon.Proto.Decoder.HeaderBlock.{decode_block, names_cmp}
use watermelon.Proto.Decoder.HeaderBlock.Text.{one_by_one, decode_block-header_block}
use watermelon.Proto.Decoder.Machine.{StreamDecoder, decode, new, error_line}
use watermelon.Proto.Decoder.Machine.Feed.{feed}
use watermelon.Proto.Decoder.Machine.Stale.{searched, decode_stale}
use watermelon.Tests.Instance.{crates, crates-IsLawful, is_ascii}

abbrev seven : SubscriptionId
seven = record { id = 7 }

abbrev subject : Subject
subject = record { text = codes "a.b" }

abbrev body : Bytes
body = codes "hi\r\n"

abbrev ping_line : Bytes
ping_line = codes "PING\r\n"

abbrev name : HeaderName
name = record { text = codes "X" }

abbrev header_map : HeaderMap
header_map = record { headers = (name, one (record { inner = codes "1" })) ∷ []; len = 1 }

abbrev message : HeaderMap → ServerOp Bytes
message h = Proto.ServerOp.message (record {
  status_code = none;
  status_description = none;
  subscription_id = seven;
  base = record { subject = subject; reply_subject = none; headers = h; payload = body };
})

decode_block-header_block_example :
    decode_block crates (header_block header_map)
    ≡ ok (none, none, from_iter (names_cmp crates) (one_by_one (iter header_map)))
unfolding iter
decode_block-header_block_example =
    decode_block-header_block crates crates-IsLawful header_map
      (((((λ q. absurd (cc)), (refl, tt)), (refl, tt)), tt), tt)

abbrev half : StreamDecoder
half = record { status = control_line 0; read_buf = codes "PIN" }

abbrev waiting : StreamDecoder
waiting = record { status = control_line 3; read_buf = codes "PIN" }

abbrev error_text : Bytes
error_text = codes "'oops'"

abbrev next_frames : Bytes
next_frames = codes "PING\r\nPING\r"

abbrev oops : ServerOp Bytes
oops = Proto.ServerOp.error (other (codes "oops"))

reads_oops : error_line crates error_text ≡ ok (some oops)
unfolding error_line is_ascii
reads_oops = refl

decode_stale_example :
    (decode crates (feed (codes "-ERR 'oops'") new)
      ≡ some (searched crates crates-IsLawful (codes "-ERR 'oops'") (codes "-ERR 'oops'"), ok none))
    × (decode crates (
          feed
            (crlf ++ next_frames)
            (searched crates crates-IsLawful (codes "-ERR 'oops'") (codes "-ERR 'oops'")))
        ≡ some (searched crates crates-IsLawful (codes "-ERR 'oops'") next_frames, ok (some oops)))
    × (decode crates (searched crates crates-IsLawful (codes "-ERR 'oops'") next_frames)
        ≡ some (searched crates crates-IsLawful (codes "-ERR 'oops'") next_frames, ok none))
decode_stale_example =
    decode_stale crates crates-IsLawful error_text next_frames oops
      (refl, (refl, (refl, (refl, (refl, (refl, tt)))))) reads_oops (omega arith) refl refl
