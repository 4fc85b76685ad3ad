-- ===== src/Wire/Framing/Ends.antt =====
-- The two loops of progressive-lsp-protocol/src/framing.rs end on every input.
use progressive_lsp.Base.{
  ℕ, zero, suc, ◌≤◌, ◌<◌, ◌≡◌, ◌≢◌, refl, Bool, true, false, Option, none, some, arith, Text,
  length, length-drop, Result, ok, err,
}
use progressive_lsp.Base.Bytes.{Bytes}
use progressive_lsp.Wire.Framing.{
  Stop, unfinished, read_line, header_length, read_content, read_headers, read_message,
  decode_messages, decode_all,
}
use progressive_lsp.Wire.Framing.Lines.{read_line_splits, length-read_line}

header_length-finishes : (line : Text) (len : Option ℕ) → header_length line len ≢ err unfinished
unfolding header_length
header_length-finishes line len = ground arith

read_content-finishes : (len : Option ℕ) (reader : Bytes) → read_content len reader ≢ err unfinished
unfolding read_content
read_content-finishes len reader = ground arith

read_content-shorter :
    (len : Option ℕ) (reader msg rest : Bytes)
    → read_content len reader ≡ ok (some (msg, rest))
    → length rest ≤ length reader
unfolding read_content
read_content-shorter none reader msg rest h = cc
read_content-shorter (some n) reader msg rest h = ground (arith, length-drop n reader)

read_headers-finishes :
    (fuel : ℕ) (len : Option ℕ) (saw_any : Bool) (reader : Bytes)
    → length reader < fuel
    → read_headers fuel len saw_any reader ≢ err unfinished
unfolding read_headers
read_headers-finishes zero len saw_any reader h = absurd (omega arith)
read_headers-finishes (suc fuel) len saw_any reader h =
    let rest = (read_line reader).1 in
    let ih : (len' : Option ℕ)
        → length rest < fuel
        → read_headers fuel len' true rest ≢ err unfinished =
      (λ len' lt. read_headers-finishes fuel len' true rest lt) in
    grind (
      arith,
      read_content-finishes,
      header_length-finishes,
      read_line_splits reader,
      length-read_line reader,
    )

read_headers-shorter :
    (fuel : ℕ) (len : Option ℕ) (saw_any : Bool) (reader msg rest : Bytes)
    → read_headers fuel len saw_any reader ≡ ok (some (msg, rest))
    → length rest < length reader
unfolding read_headers
read_headers-shorter zero len saw_any reader msg rest h = cc
read_headers-shorter (suc fuel) len saw_any reader msg rest h =
    let left = (read_line reader).1 in
    let ih : (len' : Option ℕ)
        → read_headers fuel len' true left ≡ ok (some (msg, rest))
        → length rest < length left =
      (λ len' e. read_headers-shorter fuel len' true left msg rest e) in
    grind (arith, read_content-shorter, read_line_splits reader, length-read_line reader)

read_message-finishes : (bytes : Bytes) → read_message bytes ≢ err unfinished
unfolding read_message
read_message-finishes bytes =
    read_headers-finishes (suc (length bytes)) none false bytes (omega arith)

read_message-shorter :
    (bytes msg rest : Bytes)
    → read_message bytes ≡ ok (some (msg, rest))
    → length rest < length bytes
unfolding read_message
read_message-shorter bytes = read_headers-shorter (suc (length bytes)) none false bytes

-- A round, by what its message is.
decode_round-finishes :
    (fuel : ℕ) (bytes : Bytes) (r : Result (Option (Bytes × Bytes)) Stop)
    → read_message bytes ≡ r
    → ((rest : Bytes) → length rest < length bytes → decode_messages fuel rest ≢ err unfinished)
    → decode_messages (suc fuel) bytes ≢ err unfinished
unfolding decode_messages
decode_round-finishes fuel bytes (err e) h rec = ground (arith, read_message-finishes bytes)
decode_round-finishes fuel bytes (ok none) h rec = ground arith
decode_round-finishes fuel bytes (ok (some (msg, rest))) h rec =
    ground (arith, rec rest (read_message-shorter bytes msg rest h))

decode_messages-finishes :
    (fuel : ℕ) (bytes : Bytes) → length bytes < fuel → decode_messages fuel bytes ≢ err unfinished
decode_messages-finishes zero bytes h = absurd (omega arith)
decode_messages-finishes (suc fuel) bytes h =
    decode_round-finishes fuel bytes (read_message bytes) refl
      λ rest lt. decode_messages-finishes fuel rest (omega arith)

-- On any input the loop over the header lines and the loop over the messages end: neither runs
-- out of its fuel.
pub read_finishes :
    (bytes : Bytes) → (read_message bytes ≢ err unfinished) × (decode_all bytes ≢ err unfinished)
unfolding decode_all
read_finishes bytes =
    (read_message-finishes bytes, decode_messages-finishes (suc (length bytes)) bytes (omega arith))
