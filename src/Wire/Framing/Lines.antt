-- ===== src/Wire/Framing/Lines.antt =====
-- The lines of a header, byte by byte and trimmed (progressive-lsp-protocol/src/framing.rs).
use mathlib.Core.List.{append-nil}
use progressive_lsp.Base.{
  ℕ, ◌+◌, ◌≤◌, ◌<◌, ◌≡◌, ◌≢◌, refl, sym, ap, ◌∙◌, [], ◌∷◌, ◌++◌, Bool, true, false, Option, some,
  arith, Text, codes, nat_eq, length, length-append, All, ok, u64_max,
}
use progressive_lsp.Base.Bytes.{Bytes}
use progressive_lsp.Base.Utf8.{as_bytes, IsScalar}
use progressive_lsp.Base.Decimal.{to_decimal, decimal_from-IsDigit, parse_usize-to_decimal, IsDigit}
use progressive_lsp.Base.Texts.{trim_end_matches, trim_start_matches, trim, is_whitespace}
use progressive_lsp.Wire.Framing.{read_line, header_length}

pub read_line-append :
    (xs rest : Bytes) → All (λ b. b ≢ 10) xs → read_line (xs ++ 10 ∷ rest) ≡ (xs ++ 10 ∷ [], rest)
unfolding read_line
read_line-append [] rest h = refl
read_line-append (x ∷ xs) rest h = ground (arith, read_line-append xs rest h.1, h.0)

-- A line and what follows it are the input; only at its end is the line empty.
pub read_line_splits :
    (reader : Bytes)
    → ((read_line reader).0 ++ (read_line reader).1 ≡ reader)
      × (0 < length reader → 0 < length (read_line reader).0)
unfolding read_line
read_line_splits [] = (refl, λ h. absurd (omega arith))
read_line_splits (b ∷ bytes) = ground (arith, read_line_splits bytes)

pub length-read_line :
    (reader : Bytes) → length (read_line reader).0 + length (read_line reader).1 ≡ length reader
length-read_line reader =
    sym (length-append (read_line reader).0 (read_line reader).1)
    ∙ ap length (read_line_splits reader).0

abbrev pub IsAscii : ℕ → Type 0
IsAscii c = c < 128

pub as_bytes-IsAscii : (s : Text) → All IsAscii s → as_bytes s ≡ s
unfolding as_bytes
as_bytes-IsAscii [] h = refl
as_bytes-IsAscii (c ∷ s) h = ground (arith, as_bytes-IsAscii s h.1, h.0)

pub IsAscii-IsScalar : (s : Text) → All IsAscii s → All IsScalar s
IsAscii-IsScalar [] h = tt
IsAscii-IsScalar (c ∷ s) h = ground (arith, IsAscii-IsScalar s h.1)

trim_end_matches_whole :
    (p : ℕ → Bool) (ys : Text) → All (λ c. p c ≡ true) ys → trim_end_matches p ys ≡ []
trim_end_matches_whole p [] h = refl
trim_end_matches_whole p (y ∷ ys) h = rw (trim_end_matches_whole p ys h.1, h.0)

pub trim_end_matches-append :
    (p : ℕ → Bool) (xs ys : Text)
    → All (λ c. p c ≡ false) xs
    → All (λ c. p c ≡ true) ys
    → trim_end_matches p (xs ++ ys) ≡ xs
trim_end_matches-append p [] ys h k = trim_end_matches_whole p ys k
trim_end_matches-append p (x ∷ []) ys h k =
    ground (arith, trim_end_matches-append p [] ys tt k, h.0)
trim_end_matches-append p (x ∷ z ∷ xs) ys h k = rw (trim_end_matches-append p (z ∷ xs) ys h.1 k)

IsDigit-not_whitespace : (s : Text) → All IsDigit s → All (λ c. is_whitespace c ≡ false) s
unfolding is_whitespace
IsDigit-not_whitespace [] h = tt
IsDigit-not_whitespace (c ∷ s) h = (ground arith, IsDigit-not_whitespace s h.1)

trim_start-digits : (s : Text) → All IsDigit s → trim_start_matches is_whitespace (32 ∷ s) ≡ s
unfolding is_whitespace
trim_start-digits [] h = refl
trim_start-digits (c ∷ s) h = ground arith

pub trim-digits : (s : Text) → All IsDigit s → trim (32 ∷ s) ≡ s
unfolding trim
trim-digits s h = rw (trim_start-digits s h) (
    let e = trim_end_matches-append is_whitespace s [] (IsDigit-not_whitespace s h) tt in
    rw append-nil at e)

-- The line that `encode_message` writes, without its end.
abbrev pub length_line : ℕ → Text
length_line n = codes "Content-Length: " ++ to_decimal n

pub header_length-length_line :
    (n : ℕ) (so_far : Option ℕ) → n ≤ u64_max → header_length (length_line n) so_far ≡ ok (some n)
unfolding header_length
header_length-length_line n so_far h =
    rw (trim-digits (to_decimal n) (decimal_from-IsDigit 20 n [] tt), parse_usize-to_decimal n h)
