-- ===== src/Wire/Examples.antt =====
-- Concrete frames of the control protocol and of the mux.
use progressive_lsp.Base.{ℕ, ◌≡◌, ◌≢◌, ◌↔◌, refl, [], ◌∷◌, ◌++◌, none, some, arith, drop, ok, err}
use progressive_lsp.Base.Bytes.{Bytes}
use progressive_lsp.Wire.Codec.{complete, encode_frame, decode_frame, decode_exact}
use progressive_lsp.Wire.Codec.Frames.{decode-encode_frame, decode_exact_iff}
use progressive_lsp.Wire.Framing.{unfinished, read_message, decode_all}
use progressive_lsp.Wire.Framing.Messages.{encode_all, decode_all-encode_all}
use progressive_lsp.Wire.Framing.Ends.{read_finishes}
use progressive_lsp.Wire.Mux
use progressive_lsp.Wire.Mux.{
  MuxError, MuxFrame, eof, encode_mux_frame, decode_mux_frame, read_mux_frame,
}
use progressive_lsp.Wire.Mux.Frames.{read-encode_mux_frame, read-eq-decode_mux_frame}

abbrev hi : Bytes
hi = 104 ∷ 105 ∷ []

abbrev hi_frame : Bytes
hi_frame = 0 ∷ 0 ∷ 0 ∷ 2 ∷ 104 ∷ 105 ∷ []

decode-encode_frame_example : decode_frame (hi_frame ++ 7 ∷ []) ≡ ok (complete hi 6)
unfolding encode_frame
decode-encode_frame_example = decode-encode_frame hi hi_frame (7 ∷ []) refl

decode_exact_iff_example : (decode_exact hi_frame ≡ ok hi) ↔ (encode_frame hi ≡ ok hi_frame)
decode_exact_iff_example = decode_exact_iff hi_frame hi (ground arith)

abbrev hi_mux_frame : Bytes
hi_mux_frame = 1 ∷ hi_frame

read-encode_mux_frame_example :
    (decode_mux_frame (hi_mux_frame ++ 7 ∷ [])
      ≡ ok (some (record { channel = 1; payload = hi }, 7)))
    × (read_mux_frame (hi_mux_frame ++ 7 ∷ [])
        ≡ ok (some (record { channel = 1; payload = hi }, 7 ∷ [])))
unfolding encode_mux_frame
read-encode_mux_frame_example = read-encode_mux_frame 1 hi hi_mux_frame (7 ∷ []) refl

read-eq-decode_mux_frame_example :
    ((fr : MuxFrame) (n : ℕ)
      → decode_mux_frame (1 ∷ 0 ∷ []) ≡ ok (some (fr, n))
      → read_mux_frame (1 ∷ 0 ∷ []) ≡ ok (some (fr, drop n (1 ∷ 0 ∷ []))))
    × (decode_mux_frame (1 ∷ 0 ∷ []) ≡ err Mux.incomplete → read_mux_frame (1 ∷ 0 ∷ []) ≡ ok none)
    × ((e : MuxError)
        → decode_mux_frame (1 ∷ 0 ∷ []) ≡ err e
        → e ≢ Mux.incomplete
        → read_mux_frame (1 ∷ 0 ∷ []) ≡ err e)
read-eq-decode_mux_frame_example = read-eq-decode_mux_frame (1 ∷ 0 ∷ [])

decode_all-encode_all_example : decode_all (encode_all (hi ∷ [] ∷ [])) ≡ ok (hi ∷ [] ∷ [])
decode_all-encode_all_example =
    decode_all-encode_all (hi ∷ [] ∷ []) (omega arith, (omega arith, tt))

read_finishes_example :
    (read_message hi_frame ≢ err unfinished) × (decode_all hi_frame ≢ err unfinished)
read_finishes_example = read_finishes hi_frame
