-- ===== src/Core/FileUri/RoundTrip.antt =====
-- Paths through their URIs (progressive-lsp-core/src/file_uri.rs).
use progressive_lsp.Base.{
  ℕ, ◌/◌, ◌%◌, ◌<◌, ◌≡◌, ◌≢◌, ◌⊎◌, inl, inr, refl, sym, ap, ◌∙◌, [], ◌∷◌, ◌++◌, true, some, arith,
  Text, codes, Bool-cases, nat_eq, All,
}
use progressive_lsp.Base.Bytes.{Bytes, AreBytes}
use progressive_lsp.Base.Utf8.{as_bytes, from_utf8_lossy-as_bytes, IsScalar}
use progressive_lsp.Base.Texts.{starts_with}
use progressive_lsp.Core.FileUri.{
  is_unreserved, hex_digit, hex_val, hex_byte, percent_encode, path_to_file_uri, decode_bytes,
  percent_decode, before_query, absolute, path_from_file_uri,
}

hex_byte-hex_digit : (b : ℕ) → b < 256 → hex_byte (hex_digit (b / 16)) (hex_digit (b % 16)) ≡ some b
unfolding hex_byte hex_val
hex_byte-hex_digit b h = ground arith

decode_bytes-plain : (c : ℕ) (s : Bytes) → c ≢ 37 → decode_bytes (c ∷ s) ≡ c ∷ decode_bytes s
unfolding decode_bytes
decode_bytes-plain c [] h = refl
decode_bytes-plain c (a ∷ []) h = refl
decode_bytes-plain c (a ∷ b ∷ s) h = ground arith

decode_bytes-escape :
    (b : ℕ) (s : Bytes)
    → b < 256
    → decode_bytes (37 ∷ hex_digit (b / 16) ∷ hex_digit (b % 16) ∷ s) ≡ b ∷ decode_bytes s
unfolding decode_bytes
decode_bytes-escape b s h = rw (hex_byte-hex_digit b h)

decode_bytes-nil : decode_bytes [] ≡ []
unfolding decode_bytes
decode_bytes-nil = refl

decode_bytes-percent_encode :
    (bytes : Bytes) → AreBytes bytes → decode_bytes (percent_encode bytes) ≡ bytes
unfolding percent_encode
decode_bytes-percent_encode [] h = decode_bytes-nil
decode_bytes-percent_encode (b ∷ bytes) h = ground (
  arith,
  decode_bytes-plain b (percent_encode bytes),
  decode_bytes-escape b (percent_encode bytes) h.0,
  decode_bytes-percent_encode bytes h.1,
)

-- What stands in an encoded path.
abbrev pub IsUriChar : ℕ → Type 0
IsUriChar c = (c ≡ 37) ⊎ (is_unreserved c ≡ true)

is_unreserved-hex_digit : (n : ℕ) → n < 16 → is_unreserved (hex_digit n) ≡ true
is_unreserved-hex_digit n h = ground arith

pub percent_encode-IsUriChar :
    (bytes : Bytes) → AreBytes bytes → All IsUriChar (percent_encode bytes)
unfolding percent_encode
percent_encode-IsUriChar [] h = tt
percent_encode-IsUriChar (b ∷ bytes) h = elim (Bool-cases (is_unreserved b)) [
  | inl plain ↦ rw plain (inr plain, percent_encode-IsUriChar bytes h.1)
  | inr other ↦ rw other (
    inl refl,
    (
      inr (is_unreserved-hex_digit (b / 16) (omega (arith, h.0))),
      (inr (is_unreserved-hex_digit (b % 16) (omega arith)), percent_encode-IsUriChar bytes h.1),
    ),
  )
]

as_bytes-IsUriChar : (s : Text) → All IsUriChar s → as_bytes s ≡ s
unfolding as_bytes
as_bytes-IsUriChar [] h = refl
as_bytes-IsUriChar (c ∷ s) h = ground (arith, as_bytes-IsUriChar s h.1, h.0)

before_query-IsUriChar : (s : Text) → All IsUriChar s → before_query s ≡ s
before_query-IsUriChar [] h = refl
before_query-IsUriChar (c ∷ s) h = ground (arith, before_query-IsUriChar s h.1, h.0)

as_bytes-AreBytes : (s : Text) → All IsScalar s → AreBytes (as_bytes s)
unfolding as_bytes
as_bytes-AreBytes [] h = tt
as_bytes-AreBytes (c ∷ s) h = ground (arith, as_bytes-AreBytes s h.1, h.0)

percent_decode-encode :
    (s : Text) → All IsScalar s → percent_decode (percent_encode (as_bytes s)) ≡ s
unfolding percent_decode
percent_decode-encode s h =
    let bytes = as_bytes-AreBytes s h in
    rw
      (
        as_bytes-IsUriChar (percent_encode (as_bytes s))
            (percent_encode-IsUriChar (as_bytes s) bytes),
        decode_bytes-percent_encode (as_bytes s) bytes,
      )
      (from_utf8_lossy-as_bytes s h)

-- An absolute path starts with a slash, which stands for itself.
percent_encode-slash :
    (s : Text) → percent_encode (as_bytes (47 ∷ s)) ≡ 47 ∷ percent_encode (as_bytes s)
unfolding percent_encode as_bytes
percent_encode-slash s = refl

path_from_file_uri-slash :
    (rest : Text)
    → All IsUriChar rest
    → path_from_file_uri (codes "file://" ++ 47 ∷ rest) ≡ absolute (percent_decode (47 ∷ rest))
unfolding path_from_file_uri
path_from_file_uri-slash rest h = rw (before_query-IsUriChar rest h)

-- An absolute path of Unicode characters is read back from its URI, which is `file://` followed
-- by nothing but unreserved characters and `%`.
pub path_from-path_to_file_uri :
    (s : Text)
    → All IsScalar s
    → (path_from_file_uri (path_to_file_uri (47 ∷ s)) ≡ 47 ∷ s)
      × ((rest : Text) × (path_to_file_uri (47 ∷ s) ≡ codes "file://" ++ rest) × All IsUriChar rest)
unfolding path_to_file_uri starts_with
path_from-path_to_file_uri s h =
    let chars = percent_encode-IsUriChar (as_bytes s) (as_bytes-AreBytes s h) in
    rw (percent_encode-slash s) (
      path_from_file_uri-slash (percent_encode (as_bytes s)) chars
          ∙ ap (λ t. absolute (percent_decode t)) (sym (percent_encode-slash s))
          ∙ ap absolute (percent_decode-encode (47 ∷ s) (inl (omega arith), h)),
      (47 ∷ percent_encode (as_bytes s), refl, (inr refl, chars)),
    )
