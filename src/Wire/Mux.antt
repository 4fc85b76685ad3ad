-- ===== src/Wire/Mux.antt =====
-- progressive-lsp-protocol/src/mux.rs: `channel | u32be length | payload` on one pipe. The reader
-- holds the bytes that are still to come, and ends after them; other I/O errors are not modelled.
pub mod Frames
use progressive_lsp.Base.{
  ℕ, ◌+◌, ◌-◌, ◌^◌, List, [], ◌∷◌, ◌++◌, Bool, not, ◌&&◌, ◌||◌, Option, none, some, Text, codes,
  if◌then◌else◌, ltb, leb, ◌==◌, nat_eq, length, take, drop, Result, ok, err,
}
use progressive_lsp.Base.Bytes.{Bytes, u32_to_be_bytes, u32_from_be_bytes}

abbrev pub channel_lsp : ℕ
channel_lsp = 0

abbrev pub channel_control : ℕ
channel_control = 1

abbrev pub max_mux_payload : ℕ
max_mux_payload = 16777216

abbrev pub u32_max : ℕ
u32_max = 2 ^ 32 - 1

pub data MuxError : Type 0 where
  payload_too_large : ℕ → MuxError
  unknown_channel : ℕ → MuxError
  incomplete : MuxError
  io : Text → MuxError

pub record MuxFrame : Type 0 where
  pub channel : ℕ
  pub payload : Bytes

-- MuxFrame::lsp and MuxFrame::control
unfoldable pub lsp_frame : Bytes → MuxFrame
lsp_frame payload = record { channel = channel_lsp; payload = payload }

unfoldable pub control_frame : Bytes → MuxFrame
control_frame payload = record { channel = channel_control; payload = payload }

-- The test that the three functions share.
abbrev pub is_unknown : ℕ → Bool
is_unknown channel = not (channel == channel_lsp) && not (channel == channel_control)

unfoldable pub encode_mux_frame : ℕ → Bytes → Result Bytes MuxError
encode_mux_frame channel payload =
    if is_unknown channel
    then err (unknown_channel channel)
    else if ltb u32_max (length payload)
    then err (payload_too_large u32_max)
    else if ltb max_mux_payload (length payload)
    then err (payload_too_large (length payload))
    else ok (channel ∷ (u32_to_be_bytes (length payload) ++ payload))

-- `decode_mux_frame` at the header; `rest` follows it.
abbrev pub decode_body : ℕ → ℕ → Bytes → Result (Option (MuxFrame × ℕ)) MuxError
decode_body channel len rest =
    if is_unknown channel
    then err (unknown_channel channel)
    else if ltb max_mux_payload len
    then err (payload_too_large len)
    else if ltb (5 + length rest) (5 + len)
    then err incomplete
    else ok (some (record { channel = channel; payload = take len rest }, 5 + len))

unfoldable pub decode_mux_frame : Bytes → Result (Option (MuxFrame × ℕ)) MuxError
decode_mux_frame [] = ok none
decode_mux_frame (channel ∷ a ∷ b ∷ c ∷ d ∷ rest) =
    decode_body channel (u32_from_be_bytes a b c d) rest
decode_mux_frame short = err incomplete

-- The text of the error that `read_exact` returns at the end of the input.
abbrev pub eof : MuxError
eof = io (codes "failed to fill whole buffer")

-- `read_mux_frame` after the header; the result carries what the reader has left.
abbrev pub read_body : ℕ → ℕ → Bytes → Result (Option (MuxFrame × Bytes)) MuxError
read_body channel len rest =
    if is_unknown channel
    then err (unknown_channel channel)
    else if ltb max_mux_payload len
    then err (payload_too_large len)
    else if ltb 0 len && ltb (length rest) len
    then err eof
    else ok (some (record { channel = channel; payload = take len rest }, drop len rest))

-- The header is read by `read_exact`, whose end of input is mapped to `Ok(None)`.
unfoldable pub read_mux_frame : Bytes → Result (Option (MuxFrame × Bytes)) MuxError
read_mux_frame (channel ∷ a ∷ b ∷ c ∷ d ∷ rest) = read_body channel (u32_from_be_bytes a b c d) rest
read_mux_frame short = ok none
