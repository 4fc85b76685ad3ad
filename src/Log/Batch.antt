-- ===== src/Log/Batch.antt =====
-- progressive-lsp-log/src/batch.rs: the records that wait for a commit. Of a record the fields that
-- the trace ring models are there; nothing here reads the others.
pub mod Retries
use progressive_lsp.Base.{
  ℕ, ◌-◌, List, [], ◌∷◌, ◌++◌, Bool, true, false, ◌&&◌, ◌||◌, not, Option, none, some, Text, codes,
  if◌then◌else◌, ltb, leb, ◌==◌, nat_eq, length, drop, max, saturating_add,
}
use progressive_lsp.Base.Decimal.{to_decimal}
use progressive_lsp.Control.TraceRing.{LogLevel, error, warn, LogRecord}

abbrev pub default_batch_max : ℕ
default_batch_max = 32

abbrev pub default_batch_ms : ℕ
default_batch_ms = 50

abbrev pub retry_cap : ℕ
retry_cap = 1024

pub record CrashSafeBatch : Type 0 where
  pub pending : List LogRecord
  pub retry : List LogRecord
  pub last_commit_ms : ℕ
  pub dropped_count : ℕ
  pub batch_max : ℕ
  pub batch_ms : ℕ

abbrev pub with_limits : ℕ → ℕ → ℕ → CrashSafeBatch
with_limits batch_max batch_ms now_ms = record {
  pending = [];
  retry = [];
  last_commit_ms = now_ms;
  dropped_count = 0;
  batch_max = max batch_max 1;
  batch_ms = batch_ms;
}

abbrev pub new_batch : ℕ → CrashSafeBatch
new_batch now_ms = with_limits default_batch_max default_batch_ms now_ms

abbrev pub no_records : List LogRecord → Bool
no_records [] = true
no_records (r ∷ rs) = false

abbrev pub is_empty : CrashSafeBatch → Bool
is_empty b = no_records b.pending && no_records b.retry

abbrev pub is_error : LogLevel → Bool
is_error error = true
is_error level = false

unfoldable pub elapsed : CrashSafeBatch → ℕ → Bool
elapsed b now_ms =
    ltb 0 b.batch_ms && (not (no_records b.pending) && leb b.batch_ms (now_ms - b.last_commit_ms))

unfoldable pub should_commit : CrashSafeBatch → ℕ → Bool
should_commit b now_ms = leb b.batch_max (length b.pending) || elapsed b now_ms

-- The batch with the record, and whether a commit should run.
unfoldable pub push : LogRecord → ℕ → CrashSafeBatch → CrashSafeBatch × Bool
push r now_ms b =
    let b' = record b { pending = b.pending ++ r ∷ [] } in
    (b', is_error r.level || should_commit b' now_ms)

-- What is written: the queue of retries first, then what is pending.
unfoldable pub take_for_commit : CrashSafeBatch → CrashSafeBatch × List LogRecord
take_for_commit b = (record b { retry = []; pending = [] }, b.retry ++ b.pending)

unfoldable pub on_commit_ok : ℕ → CrashSafeBatch → CrashSafeBatch
on_commit_ok now_ms b = record b { last_commit_ms = now_ms }

-- A round of the loop of `on_commit_fail`; the queue is full only if it holds a record to drop.
unfoldable pub keep_for_retry : LogRecord → CrashSafeBatch → CrashSafeBatch
keep_for_retry r b =
    if leb retry_cap (length b.retry)
    then record b {
      retry = drop 1 b.retry ++ r ∷ [];
      dropped_count = saturating_add b.dropped_count 1;
    }
    else record b { retry = b.retry ++ r ∷ [] }

unfoldable pub on_commit_fail : List LogRecord → CrashSafeBatch → CrashSafeBatch
on_commit_fail [] b = b
on_commit_fail (r ∷ records) b = on_commit_fail records (keep_for_retry r b)

-- The record of the drops. `prepared` changes nothing in it on the thread of the writer, which
-- enters no scope.
unfoldable pub meta_row : ℕ → ℕ → LogRecord
meta_row n now_ms = record {
  ts_unix_ms = now_ms;
  level = warn;
  component = none;
  content_path = none;
  content_file = none;
  content_line = none;
  operation = some (codes "log");
  message = codes "dropped " ++ (to_decimal n ++ codes " log records (channel or commit overflow)");
  extras = none;
}

unfoldable pub take_meta_row : ℕ → CrashSafeBatch → CrashSafeBatch × Option LogRecord
take_meta_row now_ms b =
    if b.dropped_count == 0
    then (b, none)
    else (record b { dropped_count = 0 }, some (meta_row b.dropped_count now_ms))

unfoldable pub note_channel_drops : ℕ → CrashSafeBatch → CrashSafeBatch
note_channel_drops n b = record b { dropped_count = saturating_add b.dropped_count n }
