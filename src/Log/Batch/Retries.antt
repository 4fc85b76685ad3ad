-- ===== src/Log/Batch/Retries.antt =====
-- What a failed commit keeps (progressive-lsp-log/src/batch.rs).
use mathlib.Core.List.{append_assoc, append-nil}
use progressive_lsp.Base.{
  suc, ◌+◌, ◌-◌, ◌≤◌, ◌<◌, ◌≡◌, refl, List, [], ◌∷◌, ◌++◌, arith, length, length-append, drop,
  u64_max, saturating_add,
}
use native.Mathlib.Decide.{dec_lt}
use progressive_lsp.Control.TraceRing.{LogRecord}
use progressive_lsp.Log.Batch.{CrashSafeBatch, retry_cap, keep_for_retry, on_commit_fail}

-- A record that finds room, and one that does not.
keep_for_retry-room :
    (r : LogRecord) (b : CrashSafeBatch)
    → length b.retry < retry_cap
    → keep_for_retry r b ≡ record b { retry = b.retry ++ r ∷ [] }
unfolding keep_for_retry
keep_for_retry-room r b h = ground arith

keep_for_retry-full :
    (r : LogRecord) (b : CrashSafeBatch)
    → retry_cap ≤ length b.retry
    → keep_for_retry r b ≡ record b {
      retry = drop 1 b.retry ++ r ∷ [];
      dropped_count = saturating_add b.dropped_count 1;
    }
unfolding keep_for_retry
keep_for_retry-full r b h = ground arith

on_commit_fail_from :
    (records xs : List LogRecord) (b : CrashSafeBatch)
    → length xs ≤ retry_cap
    → b.dropped_count ≤ u64_max
    → (let over = length xs + length records - retry_cap in
        on_commit_fail records (record b { retry = xs }) ≡ record b {
          retry = drop over (xs ++ records);
          dropped_count = saturating_add b.dropped_count over;
        })
unfolding on_commit_fail
on_commit_fail_from [] xs b h k =
    let e : length xs + 0 - retry_cap ≡ 0 = omega arith in
    let c : saturating_add b.dropped_count 0 ≡ b.dropped_count = omega arith in
    rw (e, c, append-nil xs) refl
on_commit_fail_from (r ∷ records) [] b h k =
    let count : 0 + suc (length records) ≡ 1 + length records = omega arith in
    rw (keep_for_retry-room r (record b { retry = [] }) (omega arith), count)
      (on_commit_fail_from records (r ∷ []) b (omega arith) k)
on_commit_fail_from (r ∷ records) (x ∷ xs) b h k = elim (dec_lt (suc (length xs)) retry_cap) [
  | yes room ↦
      let ih =
        on_commit_fail_from records (x ∷ xs ++ r ∷ []) b
          (omega (arith, length-append (x ∷ xs) (r ∷ []))) k in
      let count : length (x ∷ xs ++ r ∷ []) + length records
          ≡ suc (length xs) + suc (length records) =
        omega (arith, length-append (x ∷ xs) (r ∷ [])) in
      rw (keep_for_retry-room r (record b { retry = x ∷ xs }) room)
        (rw (count, append_assoc xs (r ∷ []) records) at ih)
  | no full ↦
      let b' = record b { dropped_count = saturating_add b.dropped_count 1 } in
      let ih =
        on_commit_fail_from records (xs ++ r ∷ []) b' (omega (arith, length-append xs (r ∷ [])))
          (omega arith) in
      let count : length (xs ++ r ∷ []) + length records - retry_cap ≡ length records =
        omega (arith, length-append xs (r ∷ [])) in
      let over : suc (length xs) + suc (length records) - retry_cap ≡ suc (length records) =
        omega arith in
      let sum : saturating_add (saturating_add b.dropped_count 1) (length records)
          ≡ saturating_add b.dropped_count (suc (length records)) =
        omega arith in
      rw (keep_for_retry-full r (record b { retry = x ∷ xs }) (omega arith), over)
        (rw (count, append_assoc xs (r ∷ []) records, sum) at ih)
]

-- A failed commit of records puts them behind those that wait for a retry; of all these the last
-- 1024 are kept, and the others are counted as dropped, if the count is a 64-bit number.
pub on_commit_fail_lem :
    (records : List LogRecord) (b : CrashSafeBatch)
    → length b.retry ≤ retry_cap
    → b.dropped_count ≤ u64_max
    → (let over = length b.retry + length records - retry_cap in
        on_commit_fail records b ≡ record b {
          retry = drop over (b.retry ++ records);
          dropped_count = saturating_add b.dropped_count over;
        })
on_commit_fail_lem records b h k = on_commit_fail_from records b.retry b h k

pub on_commit_fail_fits :
    (records : List LogRecord) (b : CrashSafeBatch)
    → length records ≤ retry_cap
    → b.retry ≡ []
    → b.dropped_count ≡ 0
    → on_commit_fail records b ≡ record b { retry = records; dropped_count = 0 }
on_commit_fail_fits records b few empty none_counted =
    let e = on_commit_fail_from records [] b (omega arith) (omega (arith, none_counted)) in
    let over : 0 + length records - retry_cap ≡ 0 = omega arith in
    let zero_count : saturating_add b.dropped_count 0 ≡ 0 = omega (arith, none_counted) in
    let same : b ≡ record b { retry = [] } = ground (arith, empty) in
    rw same (rw (over, zero_count) at e)
