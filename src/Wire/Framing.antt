-- ===== src/Wire/Framing.antt =====
-- progressive-lsp-protocol/src/framing.rs: `Content-Length` headers and a body. The reader holds the
-- bytes that are still to come, and ends after them; other I/O errors are not modelled.
pub mod Lines
pub mod Messages
pub mod Ends
use progressive_lsp.Base.{
  ℕ, zero, suc, ◌+◌, ◌≡◌, List, [], ◌∷◌, ◌++◌, map, Bool, true, false, ◌&&◌, ◌||◌, Option, none,
  some, Text, text_eq, codes, if◌then◌else◌, ltb, leb, ◌==◌, nat_eq, length, take, drop, Result, ok,
  err,
}
use progressive_lsp.Base.Bytes.{Bytes}
use progressive_lsp.Base.Utf8.{as_bytes, from_utf8}
use progressive_lsp.Base.Decimal.{to_decimal, parse_usize}
use progressive_lsp.Base.Texts.{trim_end_matches, trim, split_once, eq_ignore_ascii_case, is_crlf}

pub data FramingError : Type 0 where
  io : Text → FramingError
  missing_content_length : FramingError
  invalid_content_length : Text → FramingError
  header_too_long : FramingError

-- Why a reading ends without a message: an error, the panic of an allocation that no `Vec` can
-- hold, or, in the model alone, the end of its fuel.
pub data Stop : Type 0 where
  error : FramingError → Stop
  panicked : Stop
  unfinished : Stop

abbrev pub max_header_line : ℕ
max_header_line = 4096

-- The largest capacity of a `Vec<u8>`.
abbrev pub isize_max : ℕ
isize_max = 9223372036854775807

unfoldable pub header : ℕ → Text
header n = codes "Content-Length: " ++ (to_decimal n ++ 13 ∷ 10 ∷ 13 ∷ 10 ∷ [])

unfoldable pub encode_message : Bytes → Bytes
encode_message body = as_bytes (header (length body)) ++ body

-- `read_line`: the bytes up to and with a line feed, and those after it.
unfoldable pub read_line : Bytes → Bytes × Bytes
read_line [] = ([], [])
read_line (b ∷ bytes) =
    let (line, rest) = read_line bytes in if b == 10 then (b ∷ [], bytes) else (b ∷ line, rest)

abbrev pub content_length : Text
content_length = codes "content-length"

-- One header: the length that it sets, or the one that was set before.
unfoldable pub header_length : Text → Option ℕ → Result (Option ℕ) Stop
header_length line so_far = elim (split_once 58 line) [
  | none ↦ ok so_far
  | some (name, value) ↦
      if eq_ignore_ascii_case name content_length
      then elim (parse_usize (trim value)) [
        | none ↦ err (error (invalid_content_length (trim value)))
        | some n ↦ ok (some n)
      ]
      else ok so_far
]

-- After the headers: the length is there, and `read_exact` fills a buffer of it.
unfoldable pub read_content : Option ℕ → Bytes → Result (Option (Bytes × Bytes)) Stop
read_content none reader = err (error missing_content_length)
read_content (some len) reader =
    if ltb isize_max len
    then err panicked
    else if ltb (length reader) len
    then err (error (io (codes "failed to fill whole buffer")))
    else ok (some (take len reader, drop len reader))

-- The loop over the headers. Every round takes a byte at least.
unfoldable pub read_headers : ℕ → Option ℕ → Bool → Bytes → Result (Option (Bytes × Bytes)) Stop
read_headers zero len saw_any reader = err unfinished
read_headers (suc fuel) len saw_any reader =
    let (line, rest) = read_line reader in
    elim line [
      | [] ↦ if saw_any then err (error (io (codes "eof mid-headers"))) else ok none
      | b ∷ bytes ↦ elim (from_utf8 (b ∷ bytes)) [
        | none ↦ err (error (io (codes "stream did not contain valid UTF-8")))
        | some s ↦
            if ltb max_header_line (length (b ∷ bytes))
            then err (error header_too_long)
            else elim (trim_end_matches is_crlf s) [
              | [] ↦ read_content len rest
              | c ∷ cs ↦ elim (header_length (c ∷ cs) len) [
                | err e ↦ err e
                | ok len' ↦ read_headers fuel len' true rest
              ]
            ]
      ]
    ]

unfoldable pub read_message : Bytes → Result (Option (Bytes × Bytes)) Stop
read_message reader = read_headers (suc (length reader)) none false reader

-- The loop of `decode_all`. Every message takes a byte at least.
unfoldable pub decode_messages : ℕ → Bytes → Result (List Bytes) Stop
decode_messages zero cursor = err unfinished
decode_messages (suc fuel) cursor = elim (read_message cursor) [
  | err e ↦ err e
  | ok none ↦ ok []
  | ok (some (msg, rest)) ↦ elim (decode_messages fuel rest) [
    | err e ↦ err e
    | ok out ↦ ok (msg ∷ out)
  ]
]

unfoldable pub decode_all : Bytes → Result (List Bytes) Stop
decode_all bytes = decode_messages (suc (length bytes)) bytes
