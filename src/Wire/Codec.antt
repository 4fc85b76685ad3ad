-- ===== src/Wire/Codec.antt =====
-- progressive-lsp-control/src/codec.rs: `u32be payload_length | payload`.
pub mod Frames
use progressive_lsp.Base.{
  ℕ, ◌+◌, ◌-◌, ◌^◌, List, [], ◌∷◌, ◌++◌, Bool, if◌then◌else◌, ltb, leb, ◌==◌, nat_eq, length, take,
  drop, Result, ok, err,
}
use progressive_lsp.Base.Bytes.{Bytes, u32_to_be_bytes, u32_from_be_bytes}

abbrev pub max_payload_bytes : ℕ
max_payload_bytes = 16777216

abbrev pub u32_max : ℕ
u32_max = 2 ^ 32 - 1

pub data CodecError : Type 0 where
  payload_too_large : ℕ → CodecError
  incomplete_frame : CodecError

pub data DecodeOutcome : Type 0 where
  incomplete : ℕ → DecodeOutcome
  complete : Bytes → ℕ → DecodeOutcome

unfoldable pub encode_frame : Bytes → Result Bytes CodecError
encode_frame payload =
    if ltb u32_max (length payload)
    then err (payload_too_large u32_max)
    else if ltb max_payload_bytes (length payload)
    then err (payload_too_large (length payload))
    else ok (u32_to_be_bytes (length payload) ++ payload)

-- The rest of `decode_frame`, at the length that the first four bytes spell. `rest` is what
-- follows them.
abbrev pub decode_body : ℕ → Bytes → Result DecodeOutcome CodecError
decode_body len rest =
    if ltb max_payload_bytes len
    then err (payload_too_large len)
    else if ltb (4 + length rest) (4 + len)
    then ok (incomplete (4 + len - (4 + length rest)))
    else ok (complete (take len rest) (4 + len))

unfoldable pub decode_frame : Bytes → Result DecodeOutcome CodecError
decode_frame (a ∷ b ∷ c ∷ d ∷ rest) = decode_body (u32_from_be_bytes a b c d) rest
decode_frame short = ok (incomplete (4 - length short))

abbrev pub require_whole : ℕ → Result DecodeOutcome CodecError → Result Bytes CodecError
require_whole n (err e) = err e
require_whole n (ok (incomplete needed)) = err incomplete_frame
require_whole n (ok (complete payload consumed)) =
    if consumed == n then ok payload else err incomplete_frame

unfoldable pub decode_exact : Bytes → Result Bytes CodecError
unfolding decode_frame
decode_exact buf = require_whole (length buf) (decode_frame buf)
