-- ===== src/Core/FileUri.antt =====
-- progressive-lsp-core/src/file_uri.rs. A path is the text that `to_string_lossy` gives of it.
pub mod RoundTrip
use progressive_lsp.Base.{
  ℕ, ◌+◌, ◌-◌, ◌*◌, ◌/◌, ◌%◌, [], ◌∷◌, ◌++◌, Bool, true, false, ◌&&◌, ◌||◌, Option, none, some,
  Text, text_eq, codes, if◌then◌else◌, ltb, leb, ◌==◌, nat_eq,
}
use progressive_lsp.Base.Bytes.{Bytes}
use progressive_lsp.Base.Utf8.{as_bytes, from_utf8_lossy}
use progressive_lsp.Base.Texts.{starts_with, strip_prefix}

-- The bytes that stand for themselves in a URI.
abbrev pub is_unreserved : ℕ → Bool
is_unreserved b =
    b == 47
    || b == 45
    || b == 95
    || b == 46
    || b == 126
    || (leb 65 b && leb b 90)
    || (leb 97 b && leb b 122)
    || (leb 48 b && leb b 57)

-- A digit of `{:X}`.
abbrev pub hex_digit : ℕ → ℕ
hex_digit n = if ltb n 10 then 48 + n else 55 + n

unfoldable pub percent_encode : Bytes → Text
percent_encode [] = []
percent_encode (b ∷ bytes) =
    let rest = percent_encode bytes in
    if is_unreserved b then b ∷ rest else 37 ∷ hex_digit (b / 16) ∷ hex_digit (b % 16) ∷ rest

unfoldable pub path_to_file_uri : Text → Text
path_to_file_uri path =
    if starts_with path (codes "file:")
    then path
    else codes "file://" ++ percent_encode (as_bytes path)

unfoldable pub hex_val : ℕ → Option ℕ
hex_val c =
    if leb 48 c && leb c 57
    then some (c - 48)
    else if leb 97 c && leb c 102
    then some (c - 97 + 10)
    else if leb 65 c && leb c 70
    then some (c - 65 + 10)
    else none

-- The low four bits of the first digit are free for the second one.
unfoldable pub hex_byte : ℕ → ℕ → Option ℕ
hex_byte a b = elim (hex_val a) [
  | none ↦ none
  | some high ↦ elim (hex_val b) [ none ↦ none | some low ↦ some (high * 16 % 256 + low) ]
]

-- The loop of `percent_decode`; an escape needs two bytes after its sign.
unfoldable pub decode_bytes : Bytes → Bytes
decode_bytes [] = []
decode_bytes (c ∷ []) = c ∷ []
decode_bytes (c ∷ a ∷ []) = c ∷ decode_bytes (a ∷ [])
decode_bytes (c ∷ a ∷ b ∷ bytes) =
    let after = decode_bytes bytes in
    let next = decode_bytes (a ∷ b ∷ bytes) in
    if c == 37 then elim (hex_byte a b) [ none ↦ c ∷ next | some h ↦ h ∷ after ] else c ∷ next

unfoldable pub percent_decode : Text → Text
percent_decode input = from_utf8_lossy (decode_bytes (as_bytes input))

-- `split(['?', '#']).next()`
abbrev pub before_query : Text → Text
before_query [] = []
before_query (c ∷ s) = let rest = before_query s in if c == 63 || c == 35 then [] else c ∷ rest

-- `strip_prefix("localhost").unwrap_or(rest)`
abbrev pub without_localhost : Text → Text
without_localhost s = elim (strip_prefix s (codes "localhost")) [ none ↦ s | some rest ↦ rest ]

abbrev pub absolute : Text → Text
absolute [] = []
absolute (c ∷ s) = if c == 47 then c ∷ s else 47 ∷ c ∷ s

unfoldable pub path_from_file_uri : Text → Text
path_from_file_uri uri = elim (strip_prefix uri (codes "file://")) [
  | none ↦ percent_decode uri
  | some rest ↦ absolute (percent_decode (without_localhost (before_query rest)))
]
