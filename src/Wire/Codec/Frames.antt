-- ===== src/Wire/Codec/Frames.antt =====
-- Frames and streams of them (progressive-lsp-control/src/codec.rs).
use progressive_lsp.Base.{
  ℕ, suc, ◌+◌, ◌-◌, ◌≤◌, ◌<◌, ◌≡◌, refl, ◌↔◌, ap, ◌∙◌, [], ◌∷◌, ◌++◌, arith, length, length-append,
  take, take-append, take-all, length-take, ltb, nat_eq, if◌then◌else◌, zero, Result, ok, err,
}
use mathlib.Core.List.{append-nil}
use progressive_lsp.Base.Bytes.{
  Bytes, AreBytes, u32_to_be_bytes, u32_from_be_bytes, u32_from-to_be_bytes, u32_to-from_be_bytes,
}
use progressive_lsp.Wire.Codec.{
  max_payload_bytes, CodecError, DecodeOutcome, incomplete, complete, encode_frame, decode_body,
  require_whole, decode_frame, decode_exact,
}

-- The bytes of a frame whose payload is not too large.
abbrev pub frame : Bytes → Bytes
frame payload = u32_to_be_bytes (length payload) ++ payload

-- The encoder refuses exactly the payloads over the limit.
encode_frame-frame :
    (payload : Bytes)
    → length payload ≤ max_payload_bytes
    → encode_frame payload ≡ ok (frame payload)
unfolding encode_frame
encode_frame-frame payload h = ground arith

encode_frame-inv :
    (payload f : Bytes)
    → encode_frame payload ≡ ok f
    → (f ≡ frame payload) × (length payload ≤ max_payload_bytes)
unfolding encode_frame
encode_frame-inv payload f h = ground arith

decode_frame-frame :
    (payload rest : Bytes)
    → length payload ≤ max_payload_bytes
    → decode_frame (frame payload ++ rest) ≡ ok (complete payload (length (frame payload)))
unfolding decode_frame
decode_frame-frame payload rest h =
    rw (u32_from-to_be_bytes (length payload) (omega arith))
      (ground (arith, take-append payload rest, length-append payload rest))

-- Decoding an encoded control frame, whatever bytes follow it, gives its payload and consumes
-- exactly the frame.
pub decode-encode_frame :
    (payload f rest : Bytes)
    → encode_frame payload ≡ ok f
    → decode_frame (f ++ rest) ≡ ok (complete payload (length f))
decode-encode_frame payload f rest h =
    let (e, fits) = encode_frame-inv payload f h in rw e (decode_frame-frame payload rest fits)

frame-take :
    (payload : Bytes) (n : ℕ)
    → length payload ≤ max_payload_bytes
    → n < length (frame payload)
    → decode_frame (take n (frame payload))
      ≡ ok (incomplete (if ltb n 4 then 4 - n else length (frame payload) - n))
unfolding decode_frame
frame-take payload zero fits short = refl
frame-take payload (suc zero) fits short = refl
frame-take payload (suc (suc zero)) fits short = refl
frame-take payload (suc (suc (suc zero))) fits short = refl
frame-take payload (suc (suc (suc (suc m)))) fits short =
    rw (u32_from-to_be_bytes (length payload) (omega arith)) (ground (arith, length-take m payload))

-- Of an encoded control frame that has arrived only in part, the decoder asks for the missing
-- bytes of its header, and once the header is there for the missing bytes of the frame.
decode_frame-take :
    (payload f : Bytes) (n : ℕ)
    → encode_frame payload ≡ ok f
    → n < length f
    → decode_frame (take n f) ≡ ok (incomplete (if ltb n 4 then 4 - n else length f - n))
decode_frame-take payload f n h short =
    let (e, fits) = encode_frame-inv payload f h in rw e (frame-take payload n fits (rw e at short))

decode_body-complete :
    (len : ℕ) (rest payload : Bytes) (consumed : ℕ)
    → decode_body len rest ≡ ok (complete payload consumed)
    → (len ≤ max_payload_bytes)
      × (len ≤ length rest)
      × (payload ≡ take len rest)
      × (consumed ≡ 4 + len)
decode_body-complete len rest payload consumed h = ground arith

-- If the decoder takes a frame from a buffer of bytes, encoding its payload gives back the bytes
-- that it consumed.
encode-decode_frame :
    (buf payload : Bytes) (consumed : ℕ)
    → AreBytes buf
    → decode_frame buf ≡ ok (complete payload consumed)
    → encode_frame payload ≡ ok (take consumed buf)
unfolding decode_frame
encode-decode_frame (a ∷ b ∷ c ∷ d ∷ rest) payload consumed (ha, (hb, (hc, (hd, _)))) h =
    let len = u32_from_be_bytes a b c d in
    let (small, there, e, n) = decode_body-complete len rest payload consumed h in
    let size : length payload ≡ len = ap length e ∙ omega (arith, length-take len rest) in
    let whole : consumed ≡ suc (suc (suc (suc len))) = omega (arith, n) in
    encode_frame-frame payload (omega (arith, size, small))
    ∙ ap ok (
        rw (size, whole, e)
          (ap (λ w. w ++ take len rest) (u32_to-from_be_bytes a b c d ha hb hc hd)))
encode-decode_frame short payload consumed bytes h = cc

decode_exact-inv :
    (buf payload : Bytes)
    → decode_exact buf ≡ ok payload
    → decode_frame buf ≡ ok (complete payload (length buf))
unfolding decode_exact
decode_exact-inv buf payload h = inverted (decode_frame buf) h
  where
    inverted :
        (r : Result DecodeOutcome CodecError)
        → require_whole (length buf) r ≡ ok payload
        → r ≡ ok (complete payload (length buf))
    inverted (err e) whole = cc
    inverted (ok (incomplete needed)) whole = cc
    inverted (ok (complete p n)) whole = ground arith

-- A buffer of bytes decodes as a whole to a payload exactly if the payload is encoded to that
-- buffer.
pub decode_exact_iff :
    (buf payload : Bytes)
    → AreBytes buf
    → (decode_exact buf ≡ ok payload) ↔ (encode_frame payload ≡ ok buf)
unfolding decode_exact
decode_exact_iff buf payload bytes = (
  λ h.
      encode-decode_frame buf payload (length buf) bytes (decode_exact-inv buf payload h)
      ∙ ap ok (take-all (length buf) buf (omega arith)),
  λ h. rw (rw append-nil at (decode-encode_frame payload buf [] h)) (ground arith),
)
