-- ===== src/Proto/Decoder/HeaderBlock.antt =====
-- `decode_headers` of watermelon-proto/src/proto/decoder/mod.rs: the status line and the headers
-- in front of a payload.
pub mod Text
use mathlib.Core.List.{reverse}
use watermelon.Prelude.{
  not, List, [], ◌∷◌, Option, none, some, Bytes, codes, take, drop, length, leb, starts_with,
  is_whitespace, is_empty, if◌then◌else◌, Result, ok, err, ◌>>=◌, map_err, ok_or, Ordering,
}
use watermelon.Crates.{Crates}
use watermelon.Wire.Lines.{lines}
use watermelon.StatusCode.{StatusCode, from_ascii_bytes}
use watermelon.Headers.Name.{HeaderName}
use watermelon.Headers.Name
use watermelon.Headers.Value.{HeaderValue, from_bytes}
use watermelon.Headers.Map.{HeaderMap, from_iter}
use watermelon.Proto.Decoder.{
  DecoderError, missing_head, invalid_head, invalid_header_line, bad_status_code,
  status_description_invalid_utf8, header_name_invalid_utf8, bad_header_name, bad_header_value,
}
use watermelon.Proto.Decoder.Control.{to_text}

-- `strip_prefix`
unfoldable pub strip_prefix : Bytes → Bytes → Option Bytes
strip_prefix prefix s = if starts_with prefix s then some (drop (length prefix) s) else none

trim_front : Bytes → Bytes
trim_front [] = []
trim_front (c ∷ s) = let rest = trim_front s in if is_whitespace c then rest else c ∷ s

-- `trim_ascii`
unfoldable pub trim_ascii : Bytes → Bytes
unfolding trim_front
trim_ascii s = reverse (trim_front (reverse (trim_front s)))

-- the three bytes behind the space, if they are there
unfoldable pub status_code : Bytes → Result DecoderError (Option StatusCode)
unfolding from_ascii_bytes
status_code status_line = if not (leb 4 (length status_line)) then ok none else do
  code ← map_err bad_status_code (from_ascii_bytes (take 3 (drop 1 status_line)))
  ok (some code)

module _ {I C : Type 0} (crates : Crates I C) where
  described : Bytes → Result DecoderError (Option Bytes)
  unfolding to_text
  described [] = ok none
  described (c ∷ s) = do
    text ← to_text crates status_description_invalid_utf8 (c ∷ s)
    ok (some text)

  -- the argument is `status_line.get(4..)`, where nothing and no byte are alike
  unfoldable pub status_description : Bytes → Result DecoderError (Option Bytes)
  unfolding described trim_ascii
  status_description [] = ok none
  status_description (separator ∷ description) =
      if not (is_whitespace separator) then err invalid_head else described (trim_ascii description)

  -- one whitespace byte in front of the value is dropped
  unfoldable pub skip_one_space : Bytes → Bytes
  skip_one_space [] = []
  skip_one_space (c ∷ s) = if is_whitespace c then s else c ∷ s

  -- the closure that reads a header line
  unfoldable pub header_line : Bytes → Result DecoderError (HeaderName × HeaderValue)
  unfolding to_text skip_one_space Name.try_from from_bytes
  header_line line = do
    i ← ok_or (crates.memchr b':' line) invalid_header_line
    name_text ← to_text crates header_name_invalid_utf8 (take i line)
    name ← map_err bad_header_name (Name.try_from name_text)
    value ← map_err bad_header_value (from_bytes (skip_one_space (drop 1 (drop i line))))
    ok (name, value)

  -- the lines that are not empty, in order, up to the first error
  unfoldable pub header_lines : List Bytes → Result DecoderError (List (HeaderName × HeaderValue))
  unfolding header_line
  header_lines [] = ok []
  header_lines (line ∷ rest) =
      let tail = header_lines rest in
      if is_empty line then tail else do item ← header_line line; items ← tail; ok (item ∷ items)

  unfoldable pub names_cmp : HeaderName → HeaderName → Ordering
  names_cmp a b = crates.unicase a.text b.text

  -- what `decode_headers` makes of the lines of the block
  unfoldable pub read_block :
      List Bytes → Result DecoderError (Option StatusCode × Option Bytes × HeaderMap)
  unfolding strip_prefix status_code status_description header_lines from_iter names_cmp
  read_block [] = err missing_head
  read_block (head ∷ rest) = do
    status_line ← ok_or (strip_prefix (codes "NATS/1.0") head) invalid_head
    code ← status_code status_line
    description ← status_description (drop 4 status_line)
    items ← header_lines rest
    ok (code, description, from_iter names_cmp items)

  unfoldable pub decode_block :
      Bytes → Result DecoderError (Option StatusCode × Option Bytes × HeaderMap)
  unfolding lines read_block
  decode_block header = read_block (lines crates header)
