-- ===== src/Log/Records/Memory.antt =====
-- Which records the ring in memory holds (progressive-lsp-core/src/log.rs).
use mathlib.Core.List.{append_assoc, append-nil}
use progressive_lsp.Base.{
  suc, ◌+◌, ◌-◌, ◌≤◌, ◌<◌, ◌≡◌, refl, List, [], ◌∷◌, ◌++◌, map, Option, arith, length,
  length-append, drop, nat_eq,
}
use native.Mathlib.Decide.{dec_lt}
use progressive_lsp.Control.TraceRing.{LogRecord}
use progressive_lsp.Log.Records.{memory_log_cap, LogScope, prepared, emit}

abbrev pub emit_all : Option LogScope → List LogRecord → List LogRecord → List LogRecord
emit_all scope [] q = q
emit_all scope (r ∷ rs) q = emit_all scope rs (emit scope r q)

emit-room :
    (scope : Option LogScope) (r : LogRecord) (q : List LogRecord)
    → length q < memory_log_cap
    → emit scope r q ≡ q ++ prepared scope r ∷ []
unfolding emit
emit-room scope r q h = ground arith

emit-full :
    (scope : Option LogScope) (r : LogRecord) (q : List LogRecord)
    → length q ≡ memory_log_cap
    → emit scope r q ≡ drop 1 q ++ prepared scope r ∷ []
unfolding emit
emit-full scope r q h = ground (arith, h)

abbrev prepared_all : Option LogScope → List LogRecord → List LogRecord
prepared_all scope rs = map {A = LogRecord} (prepared scope) rs

emit_all_from :
    (scope : Option LogScope) (rs q : List LogRecord)
    → length q ≤ memory_log_cap
    → emit_all scope rs q
      ≡ drop (length q + length rs - memory_log_cap) (q ++ prepared_all scope rs)
emit_all_from scope [] q h =
    let e : length q + 0 - memory_log_cap ≡ 0 = omega arith in rw (e, append-nil q) refl
emit_all_from scope (r ∷ rs) [] h =
    let count : 0 + suc (length rs) ≡ 1 + length rs = omega arith in
    rw (emit-room scope r [] (omega arith), count)
      (emit_all_from scope rs (prepared scope r ∷ []) (omega arith))
emit_all_from scope (r ∷ rs) (x ∷ q) h = elim (dec_lt (suc (length q)) memory_log_cap) [
  | yes room ↦
      let ih =
        emit_all_from scope rs (x ∷ q ++ prepared scope r ∷ [])
          (omega (arith, length-append (x ∷ q) (prepared scope r ∷ []))) in
      let count : length (x ∷ q ++ prepared scope r ∷ []) + length rs
          ≡ suc (length q) + suc (length rs) =
        omega (arith, length-append (x ∷ q) (prepared scope r ∷ [])) in
      rw (emit-room scope r (x ∷ q) room)
        (rw (count, append_assoc q (prepared scope r ∷ []) (prepared_all scope rs)) at ih)
  | no full ↦
      let ih =
        emit_all_from scope rs (q ++ prepared scope r ∷ [])
          (omega (arith, length-append q (prepared scope r ∷ []))) in
      let count : length (q ++ prepared scope r ∷ []) + length rs - memory_log_cap ≡ length rs =
        omega (arith, length-append q (prepared scope r ∷ [])) in
      let over : suc (length q) + suc (length rs) - memory_log_cap ≡ suc (length rs) =
        omega arith in
      rw (emit-full scope r (x ∷ q) (omega arith), over)
        (rw (count, append_assoc q (prepared scope r ∷ []) (prepared_all scope rs)) at ih)
]

-- After any records the ring holds the last of them, prepared, in order.
emit_all_lem :
    (scope : Option LogScope) (rs : List LogRecord)
    → emit_all scope rs [] ≡ drop (length rs - memory_log_cap) (prepared_all scope rs)
emit_all_lem scope rs =
    let count : 0 + length rs - memory_log_cap ≡ length rs - memory_log_cap = omega arith in
    rw count at (emit_all_from scope rs [] (omega arith))
