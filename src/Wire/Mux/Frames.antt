-- ===== src/Wire/Mux/Frames.antt =====
-- The two readers of a mux frame against its encoder (progressive-lsp-protocol/src/mux.rs).
use progressive_lsp.Base.{
  ℕ, suc, ◌≤◌, ◌≡◌, ◌≢◌, ap, ◌∙◌, [], ◌∷◌, ◌++◌, false, none, some, arith, length, length-append,
  length-take, take, drop, take-append, drop-append, ltb, nat_eq, ok, err, if◌then◌else◌,
}
use progressive_lsp.Base.Bytes.{
  Bytes, AreBytes, u32_to_be_bytes, u32_from_be_bytes, u32_from-to_be_bytes, u32_to-from_be_bytes,
}
use progressive_lsp.Wire.Mux.{
  MuxError, MuxFrame, incomplete, eof, max_mux_payload, is_unknown, encode_mux_frame, decode_body,
  decode_mux_frame, read_mux_frame,
}

abbrev pub frame : ℕ → Bytes → Bytes
frame channel payload = channel ∷ (u32_to_be_bytes (length payload) ++ payload)

encode_mux_frame-inv :
    (channel : ℕ) (payload f : Bytes)
    → encode_mux_frame channel payload ≡ ok f
    → (f ≡ frame channel payload)
      × (is_unknown channel ≡ false)
      × (length payload ≤ max_mux_payload)
unfolding encode_mux_frame
encode_mux_frame-inv channel payload f h = ground arith

-- Both readers of the mux return an encoded frame, whatever bytes follow it: the decoder with the
-- number of its bytes, and the stream reader with what is left of the stream.
pub read-encode_mux_frame :
    (channel : ℕ) (payload f rest : Bytes)
    → encode_mux_frame channel payload ≡ ok f
    → (decode_mux_frame (f ++ rest)
        ≡ ok (some (record { channel = channel; payload = payload }, length f)))
      × (read_mux_frame (f ++ rest)
          ≡ ok (some (record { channel = channel; payload = payload }, rest)))
unfolding decode_mux_frame read_mux_frame
read-encode_mux_frame channel payload f rest h =
    let (e, known, fits) = encode_mux_frame-inv channel payload f h in
    rw (e, u32_from-to_be_bytes (length payload) (omega arith))
      (
        ground (arith, take-append payload rest, length-append payload rest),
        ground
            (arith, take-append payload rest, drop-append payload rest, length-append payload rest),
      )

decode_body-inv :
    (channel len : ℕ) (rest : Bytes) (fr : MuxFrame) (n : ℕ)
    → decode_body channel len rest ≡ ok (some (fr, n))
    → (is_unknown channel ≡ false)
      × (len ≤ max_mux_payload)
      × (len ≤ length rest)
      × (fr ≡ record { channel = channel; payload = take len rest })
      × (n ≡ suc (suc (suc (suc (suc len)))))
decode_body-inv channel len rest fr n h = ground arith

encode_mux_frame-frame :
    (channel : ℕ) (payload : Bytes)
    → is_unknown channel ≡ false
    → length payload ≤ max_mux_payload
    → encode_mux_frame channel payload ≡ ok (frame channel payload)
unfolding encode_mux_frame
encode_mux_frame-frame channel payload known fits = ground arith

-- If the mux decoder takes a frame from a buffer of bytes, encoding its channel and payload gives
-- back the bytes that it consumed.
encode-decode_mux_frame :
    (buf : Bytes) (fr : MuxFrame) (consumed : ℕ)
    → AreBytes buf
    → decode_mux_frame buf ≡ ok (some (fr, consumed))
    → encode_mux_frame fr.channel fr.payload ≡ ok (take consumed buf)
unfolding decode_mux_frame
encode-decode_mux_frame [] fr consumed bytes h = cc
encode-decode_mux_frame (channel ∷ a ∷ b ∷ c ∷ d ∷ rest) fr consumed (_, (ha, (hb, (hc, (hd, _)))))
      h =
    let len = u32_from_be_bytes a b c d in
    let (known, small, there, e, n) = decode_body-inv channel len rest fr consumed h in
    let size : length (take len rest) ≡ len = omega (arith, length-take len rest) in
    rw (e, n)
      (encode_mux_frame-frame channel (take len rest) known (omega (arith, size))
        ∙ ap ok (
            rw size (
              ap (λ w. channel ∷ (w ++ take len rest)) (u32_to-from_be_bytes a b c d ha hb hc hd))))
encode-decode_mux_frame short fr consumed bytes h = cc

-- On each input, if the decoder returns a frame, the stream reader returns it and leaves what
-- follows; if the decoder says that the frame is incomplete, the stream reader reports the end of
-- the stream within the header and an I/O error after it; any other error of the decoder it
-- returns too.
pub read-eq-decode_mux_frame :
    (buf : Bytes)
    → ((fr : MuxFrame) (n : ℕ)
        → decode_mux_frame buf ≡ ok (some (fr, n))
        → read_mux_frame buf ≡ ok (some (fr, drop n buf)))
      × (decode_mux_frame buf ≡ err incomplete
          → read_mux_frame buf ≡ (if ltb (length buf) 5 then ok none else err eof))
      × ((e : MuxError)
          → decode_mux_frame buf ≡ err e
          → e ≢ incomplete
          → read_mux_frame buf ≡ err e)
unfolding decode_mux_frame read_mux_frame
read-eq-decode_mux_frame [] = (λ fr n h. cc, λ h. cc, λ e h k. cc)
read-eq-decode_mux_frame (channel ∷ a ∷ b ∷ c ∷ d ∷ rest) = (
  λ fr n h.
      let (known, small, there, e, m) =
        decode_body-inv channel (u32_from_be_bytes a b c d) rest fr n h in
      rw (e, m) (ground arith),
  λ h. ground arith,
  λ e h k. ground arith,
)
read-eq-decode_mux_frame short = (λ fr n h. cc, λ h. ground arith, λ e h k. ground arith)
