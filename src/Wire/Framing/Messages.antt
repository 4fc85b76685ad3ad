-- ===== src/Wire/Framing/Messages.antt =====
-- Messages between their framing and their reading (progressive-lsp-protocol/src/framing.rs).
use mathlib.Core.List.{append_assoc}
use progressive_lsp.Base.{
  ℕ, zero, suc, ◌≤◌, ◌<◌, ◌≡◌, ◌≢◌, refl, ◌∙◌, [], ◌∷◌, ◌++◌, List, Bool, true, false, Option, none,
  some, arith, Text, codes, nat_eq, length, length-append, All, All-append, ok, err, u64_max, take,
  take-append, drop-append, length-take,
}
use progressive_lsp.Base.Bytes.{Bytes}
use progressive_lsp.Base.Utf8.{as_bytes, chunks, from_utf8, from_utf8-as_bytes}
use progressive_lsp.Base.Decimal.{to_decimal, decimal_from-IsDigit, length-decimal_from, IsDigit}
use progressive_lsp.Base.Texts.{trim_end_matches, is_crlf}
use progressive_lsp.Wire.Framing.{
  FramingError, error, panicked, isize_max, header, encode_message, read_line, header_length,
  read_content, read_headers, read_message, decode_messages, decode_all,
}
use progressive_lsp.Wire.Framing.Lines.{
  read_line-append, IsAscii, as_bytes-IsAscii, IsAscii-IsScalar, trim_end_matches-append,
  length_line, header_length-length_line,
}

-- Whatever the digits of a length, they are no ends of a line.
IsDigit-line :
    (s : Text)
    → All IsDigit s
    → All IsAscii s × All (λ c. is_crlf c ≡ false) s × All (λ b. b ≢ 10) s
IsDigit-line [] h = (tt, tt, tt)
IsDigit-line (c ∷ s) h = ground (arith, IsDigit-line s h.1, h.0)

length_line_chars :
    (n : ℕ)
    → All IsAscii (length_line n)
      × All (λ c. is_crlf c ≡ false) (length_line n)
      × All (λ b. b ≢ 10) (length_line n)
length_line_chars n = ground (arith, IsDigit-line (to_decimal n) (decimal_from-IsDigit 20 n [] tt))

from_utf8-IsAscii : (s : Text) → All IsAscii s → from_utf8 s ≡ some s
from_utf8-IsAscii s h =
    let e = from_utf8-as_bytes s (IsAscii-IsScalar s h) in rw (as_bytes-IsAscii s h) at e

-- A round that reads a header, and the round that reads the empty line.
read_headers-header :
    (fuel : ℕ) (len : Option ℕ) (saw_any : Bool) (reader line rest : Bytes) (s h : Text)
    (next : Option ℕ)
    → read_line reader ≡ (line, rest)
    → from_utf8 line ≡ some s
    → 0 < length line
    → length line ≤ 4096
    → trim_end_matches is_crlf s ≡ h
    → 0 < length h
    → header_length h len ≡ ok next
    → read_headers (suc fuel) len saw_any reader ≡ read_headers fuel next true rest
unfolding read_headers
read_headers-header fuel len saw_any reader line rest s h next reads valid some_line short trims
      some_header sets =
    ground arith

read_headers-empty_line :
    (fuel : ℕ) (len : Option ℕ) (saw_any : Bool) (rest : Bytes)
    → read_headers (suc fuel) len saw_any (13 ∷ 10 ∷ rest) ≡ read_content len rest
unfolding read_headers read_line from_utf8 chunks read_content
read_headers-empty_line fuel len saw_any rest = refl

-- The first round reads the length, the second one the empty line.
read_headers-length_line :
    (fuel n : ℕ) (rest : Bytes)
    → n ≤ u64_max
    → read_headers (suc fuel) none false (length_line n ++ 13 ∷ 10 ∷ rest)
      ≡ read_headers fuel (some n) true rest
read_headers-length_line fuel n rest h =
    let (ascii, no_end, no_feed) = length_line_chars n in
    let line : Text = length_line n ++ 13 ∷ 10 ∷ [] in
    let whole : All IsAscii line =
      All-append IsAscii (length_line n) (13 ∷ 10 ∷ []) ascii (omega arith) in
    let cut : All (λ b. b ≢ 10) (length_line n ++ 13 ∷ []) =
      All-append (λ b. b ≢ 10) (length_line n) (13 ∷ []) no_feed (omega arith) in
    let reads : read_line (length_line n ++ 13 ∷ 10 ∷ rest) ≡ (line, rest) =
      (let e = read_line-append (length_line n ++ 13 ∷ []) rest cut in simp append_assoc at e) in
    read_headers-header fuel none false (length_line n ++ 13 ∷ 10 ∷ rest) line rest line
      (length_line n) (some n) reads (from_utf8-IsAscii line whole) (omega arith)
      (omega (arith, length-append (length_line n) (13 ∷ 10 ∷ []), length-decimal_from 20 n []))
      (trim_end_matches-append is_crlf (length_line n) (13 ∷ 10 ∷ []) no_end (refl, (refl, tt)))
      (omega arith) (header_length-length_line n none h)

-- The header of a message, in front of its content.
header-length_line :
    (n : ℕ) (rest : Bytes) → as_bytes (header n) ++ rest ≡ length_line n ++ 13 ∷ 10 ∷ 13 ∷ 10 ∷ rest
unfolding header
header-length_line n rest =
    rw
      (as_bytes-IsAscii (length_line n ++ 13 ∷ 10 ∷ 13 ∷ 10 ∷ []) (
        All-append IsAscii (length_line n) (13 ∷ 10 ∷ 13 ∷ 10 ∷ []) (length_line_chars n).0
          (omega arith)))
      (append_assoc (length_line n) (13 ∷ 10 ∷ 13 ∷ 10 ∷ []) rest)

pub read_message-header :
    (n : ℕ) (rest : Bytes)
    → n ≤ u64_max
    → read_message (as_bytes (header n) ++ rest) ≡ read_content (some n) rest
unfolding read_message
read_message-header n rest h = rw (header-length_line n rest) (
    read_headers-length_line (length (length_line n ++ 13 ∷ 10 ∷ 13 ∷ 10 ∷ rest)) n (13 ∷ 10 ∷ rest)
      h
    ∙ read_headers-empty_line _ (some n) true rest)

pub read-encode_message :
    (body rest : Bytes)
    → length body ≤ isize_max
    → read_message (encode_message body ++ rest) ≡ ok (some (body, rest))
unfolding encode_message read_content
read-encode_message body rest h =
    rw
      (
        append_assoc (as_bytes (header (length body))) body rest,
        read_message-header (length body) (body ++ rest) (omega arith),
      )
      (ground (arith, take-append body rest, drop-append body rest, length-append body rest))

-- A stream that ends within the content is an error, whatever part of it has come.
read_message_cut :
    (body : Bytes) (k : ℕ)
    → length body ≤ isize_max
    → k < length body
    → read_message (as_bytes (header (length body)) ++ take k body)
      ≡ err (error (FramingError.io (codes "failed to fill whole buffer")))
unfolding read_content
read_message_cut body k h lt =
    rw (read_message-header (length body) (take k body) (omega arith))
      (ground (arith, length-take k body))

-- A header may ask for more than a `Vec` can hold, which panics whatever follows.
read_message_panics :
    (n : ℕ) (rest : Bytes)
    → isize_max < n
    → n ≤ u64_max
    → read_message (as_bytes (header n) ++ rest) ≡ err panicked
unfolding read_content
read_message_panics n rest h fits = rw (read_message-header n rest fits) (ground arith)

abbrev pub encode_all : List Bytes → Bytes
encode_all [] = []
encode_all (body ∷ bodies) = encode_message body ++ encode_all bodies

length-encode_message : (body : Bytes) → 0 < length (encode_message body)
unfolding encode_message
length-encode_message body = rw (header-length_line (length body) body) (omega arith)

length-encode_all : (bodies : List Bytes) → length bodies ≤ length (encode_all bodies)
length-encode_all [] = omega arith
length-encode_all (body ∷ bodies) = omega (
  arith,
  length-encode_all bodies,
  length-encode_message body,
  length-append (encode_message body) (encode_all bodies),
)

read_message_end : read_message [] ≡ ok none
unfolding read_message read_headers read_line
read_message_end = refl

decode_messages-encode_all :
    (fuel : ℕ) (bodies : List Bytes)
    → length bodies < fuel
    → All (λ body. length body ≤ isize_max) bodies
    → decode_messages fuel (encode_all bodies) ≡ ok bodies
unfolding decode_messages
decode_messages-encode_all zero bodies lt h = absurd (omega arith)
decode_messages-encode_all (suc fuel) [] lt h = ground (arith, read_message_end)
decode_messages-encode_all (suc fuel) (body ∷ bodies) lt h = ground (
  arith,
  read-encode_message body (encode_all bodies) h.0,
  decode_messages-encode_all fuel bodies (omega arith) h.1,
)

-- If no body is longer than a `Vec` can be, decoding the messages that frame the bodies, one
-- after the other, gives the bodies.
pub decode_all-encode_all :
    (bodies : List Bytes)
    → All (λ body. length body ≤ isize_max) bodies
    → decode_all (encode_all bodies) ≡ ok bodies
unfolding decode_all
decode_all-encode_all bodies h =
    decode_messages-encode_all (suc (length (encode_all bodies))) bodies
      (omega (arith, length-encode_all bodies)) h
