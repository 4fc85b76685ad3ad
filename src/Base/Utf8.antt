-- ===== src/Base/Utf8.antt =====
-- UTF-8, the form of `str` and `String` as bytes: what `as_bytes`, `from_utf8` and
-- `from_utf8_lossy` do. A text is the list of its code points.
use Prim.Native.Nat.{ℕ, zero, suc, ◌+◌, ◌-◌, ◌*◌, ◌/◌, ◌%◌, ◌≤◌, ◌<◌}
use mathlib.Core.Path.{◌≡◌, refl, ap, ◌∙◌}
use mathlib.Core.Logic.{◌⊎◌}
use mathlib.Core.Bool.{◌&&◌}
use mathlib.Core.Option
use mathlib.Core.Option.{Option, none, some}
use mathlib.Core.List.{List, [], ◌∷◌, ◌++◌, map, append_assoc, append-nil}
use native.Mathlib.Omega.{arith}
use progressive_lsp.Base.Tests.{if◌then◌else◌, ltb, leb, nat_beq, Text}
use progressive_lsp.Base.Lists.{All}
use progressive_lsp.Base.Bytes.{Bytes}

-- The code points that are characters.
abbrev pub IsScalar : ℕ → Type 0
IsScalar c = (c < 55296) ⊎ ((57344 ≤ c) × (c < 1114112))

abbrev pub encode_char : ℕ → Bytes
encode_char c =
    if ltb c 128
    then c ∷ []
    else if ltb c 2048
    then (192 + c / 64) ∷ (128 + c % 64) ∷ []
    else if ltb c 65536
    then (224 + c / 4096) ∷ (128 + c / 64 % 64) ∷ (128 + c % 64) ∷ []
    else (240 + c / 262144) ∷ (128 + c / 4096 % 64) ∷ (128 + c / 64 % 64) ∷ (128 + c % 64) ∷ []

unfoldable pub as_bytes : Text → Bytes
as_bytes [] = []
as_bytes (c ∷ s) = encode_char c ++ as_bytes s

-- What a leading byte asks for: `next` takes the bits read, the bytes to come, and the range of the
-- first of them.
abbrev pub lead : ℕ → (ℕ → ℕ → ℕ → ℕ → List (Option ℕ)) → List (Option ℕ)
lead b next =
    if ltb b 128
    then some b ∷ next 0 0 0 0
    else if leb 194 b && leb b 223
    then next (b - 192) 1 128 191
    else if nat_beq b 224
    then next 0 2 160 191
    else if nat_beq b 237
    then next 13 2 128 159
    else if leb 225 b && leb b 239
    then next (b - 224) 2 128 191
    else if nat_beq b 240
    then next 0 3 144 191
    else if nat_beq b 244
    then next 4 3 128 143
    else if leb 241 b && leb b 243
    then next (b - 240) 3 128 191
    else none ∷ next 0 0 0 0

-- The characters of a byte string, with `none` for each part that is not one.
unfoldable pub chunks : ℕ → ℕ → ℕ → ℕ → Bytes → List (Option ℕ)
chunks bits zero lo hi [] = []
chunks bits (suc more) lo hi [] = none ∷ []
chunks bits zero lo hi (b ∷ bytes) = lead b (λ c m l h. chunks c m l h bytes)
chunks bits (suc zero) lo hi (b ∷ bytes) =
    if leb lo b && leb b hi
    then some (bits * 64 + (b - 128)) ∷ chunks 0 0 0 0 bytes
    else none ∷ lead b (λ c m l h. chunks c m l h bytes)
chunks bits (suc (suc more)) lo hi (b ∷ bytes) =
    if leb lo b && leb b hi
    then chunks (bits * 64 + (b - 128)) (suc more) 128 191 bytes
    else none ∷ lead b (λ c m l h. chunks c m l h bytes)

abbrev pub replace_invalid : Option ℕ → ℕ
replace_invalid none = 65533
replace_invalid (some c) = c

unfoldable pub from_utf8_lossy : Bytes → Text
from_utf8_lossy bytes = map replace_invalid (chunks 0 0 0 0 bytes)

abbrev pub all_some : List (Option ℕ) → Option Text
all_some [] = some []
all_some (none ∷ cs) = none
all_some (some c ∷ cs) = Option.map (c ∷◌) (all_some cs)

unfoldable pub from_utf8 : Bytes → Option Text
from_utf8 bytes = all_some (chunks 0 0 0 0 bytes)

chunks_one :
    (bits lo hi b : ℕ) (rest : Bytes)
    → lo ≤ b
    → b ≤ hi
    → chunks bits 1 lo hi (b ∷ rest) ≡ some (bits * 64 + (b - 128)) ∷ chunks 0 0 0 0 rest
unfolding chunks
chunks_one bits lo hi b rest p q = ground arith

chunks_more :
    (bits more lo hi b : ℕ) (rest : Bytes)
    → lo ≤ b
    → b ≤ hi
    → chunks bits (suc (suc more)) lo hi (b ∷ rest)
      ≡ chunks (bits * 64 + (b - 128)) (suc more) 128 191 rest
unfolding chunks
chunks_more bits more lo hi b rest p q = ground arith

lead_two :
    (b : ℕ) (rest : Bytes)
    → 194 ≤ b
    → b ≤ 223
    → chunks 0 0 0 0 (b ∷ rest) ≡ chunks (b - 192) 1 128 191 rest
unfolding chunks
lead_two b rest p q = ground arith

lead_three :
    (b : ℕ) (rest : Bytes)
    → 224 ≤ b
    → b ≤ 239
    → chunks 0 0 0 0 (b ∷ rest)
      ≡ chunks
          (b - 224)
          2
          (if nat_beq b 224 then 160 else 128)
          (if nat_beq b 237 then 159 else 191)
          rest
unfolding chunks
lead_three b rest p q = ground arith

lead_four :
    (b : ℕ) (rest : Bytes)
    → 240 ≤ b
    → b ≤ 244
    → chunks 0 0 0 0 (b ∷ rest)
      ≡ chunks
          (b - 240)
          3
          (if nat_beq b 240 then 144 else 128)
          (if nat_beq b 244 then 143 else 191)
          rest
unfolding chunks
lead_four b rest p q = ground arith

one_byte :
    (c : ℕ) (rest : Bytes) → c < 128 → chunks 0 0 0 0 (c ∷ rest) ≡ some c ∷ chunks 0 0 0 0 rest
unfolding chunks
one_byte c rest h = ground arith

two_bytes :
    (c : ℕ) (rest : Bytes)
    → 128 ≤ c
    → c < 2048
    → chunks 0 0 0 0 ((192 + c / 64) ∷ (128 + c % 64) ∷ rest) ≡ some c ∷ chunks 0 0 0 0 rest
two_bytes c rest p q =
    lead_two (192 + c / 64) ((128 + c % 64) ∷ rest) (omega arith) (omega arith)
    ∙ chunks_one (192 + c / 64 - 192) 128 191 (128 + c % 64) rest (omega arith) (omega arith)
    ∙ ap (λ (d : ℕ). some d ∷ chunks 0 0 0 0 rest) (omega arith)

three_bytes :
    (c : ℕ) (rest : Bytes)
    → 2048 ≤ c
    → c < 65536
    → IsScalar c
    → chunks 0 0 0 0 ((224 + c / 4096) ∷ (128 + c / 64 % 64) ∷ (128 + c % 64) ∷ rest)
      ≡ some c ∷ chunks 0 0 0 0 rest
three_bytes c rest p q h =
    let a : ℕ = 224 + c / 4096 in
    let b : ℕ = 128 + c / 64 % 64 in
    let d : ℕ = 128 + c % 64 in
    lead_three a (b ∷ d ∷ rest) (omega arith) (omega arith)
    ∙ chunks_more (a - 224) 0 (if nat_beq a 224 then 160 else 128)
        (if nat_beq a 237 then 159 else 191) b (d ∷ rest) (ground arith) (ground arith)
    ∙ chunks_one ((a - 224) * 64 + (b - 128)) 128 191 d rest (omega arith) (omega arith)
    ∙ ap (λ (e : ℕ). some e ∷ chunks 0 0 0 0 rest) (omega arith)

four_bytes :
    (c : ℕ) (rest : Bytes)
    → 65536 ≤ c
    → c < 1114112
    → chunks 0 0 0 0
        ((240 + c / 262144) ∷ (128 + c / 4096 % 64) ∷ (128 + c / 64 % 64) ∷ (128 + c % 64) ∷ rest)
      ≡ some c ∷ chunks 0 0 0 0 rest
four_bytes c rest p q =
    let a : ℕ = 240 + c / 262144 in
    let b : ℕ = 128 + c / 4096 % 64 in
    let d : ℕ = 128 + c / 64 % 64 in
    let e : ℕ = 128 + c % 64 in
    lead_four a (b ∷ d ∷ e ∷ rest) (omega arith) (omega arith)
    ∙ chunks_more (a - 240) 1 (if nat_beq a 240 then 144 else 128)
        (if nat_beq a 244 then 143 else 191) b (d ∷ e ∷ rest) (ground arith) (ground arith)
    ∙ chunks_more ((a - 240) * 64 + (b - 128)) 0 128 191 d (e ∷ rest) (omega arith) (omega arith)
    ∙ chunks_one (((a - 240) * 64 + (b - 128)) * 64 + (d - 128)) 128 191 e rest (omega arith)
        (omega arith)
    ∙ ap (λ (f : ℕ). some f ∷ chunks 0 0 0 0 rest) (omega arith)

pub chunks-encode_char :
    (c : ℕ) (rest : Bytes)
    → IsScalar c
    → chunks 0 0 0 0 (encode_char c ++ rest) ≡ some c ∷ chunks 0 0 0 0 rest
chunks-encode_char c rest h =
    ground (arith, one_byte c rest, two_bytes c rest, three_bytes c rest, four_bytes c rest)

pub chunks-as_bytes :
    (s : Text) (rest : Bytes)
    → All IsScalar s
    → chunks 0 0 0 0 (as_bytes s ++ rest) ≡ map some s ++ chunks 0 0 0 0 rest
unfolding as_bytes
chunks-as_bytes [] rest h = refl
chunks-as_bytes (c ∷ s) rest h =
    rw (append_assoc, chunks-encode_char c (as_bytes s ++ rest) h.0, chunks-as_bytes s rest h.1)

replace_invalid-some : (s : Text) → map replace_invalid (map some s) ≡ s
replace_invalid-some [] = refl
replace_invalid-some (c ∷ s) = ap (c ∷◌) (replace_invalid-some s)

all_some-some : (s : Text) → all_some (map some s) ≡ some s
all_some-some [] = refl
all_some-some (c ∷ s) = rw (all_some-some s)

chunks_whole : (s : Text) → All IsScalar s → chunks 0 0 0 0 (as_bytes s) ≡ map some s
unfolding chunks
chunks_whole s h = let e = chunks-as_bytes s [] h in simp (append-nil) at e

-- Both readings give back a text from its bytes.
pub from_utf8_lossy-as_bytes : (s : Text) → All IsScalar s → from_utf8_lossy (as_bytes s) ≡ s
unfolding from_utf8_lossy
from_utf8_lossy-as_bytes s h = rw (chunks_whole s h) (replace_invalid-some s)

pub from_utf8-as_bytes : (s : Text) → All IsScalar s → from_utf8 (as_bytes s) ≡ some s
unfolding from_utf8
from_utf8-as_bytes s h = rw (chunks_whole s h) (all_some-some s)
