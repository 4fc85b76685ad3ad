-- ===== src/Log/Writer/Room.antt =====
-- How much the mailbox and the batch hold (progressive-lsp-log/src/actor.rs, batch.rs).
use progressive_lsp.Base.{
  ℕ, ◌+◌, ◌-◌, ◌≤◌, ◌<◌, ◌≡◌, refl, ap, ◌∙◌, List, [], ◌∷◌, ◌++◌, true, arith, length,
  length-append, length-drop, drop, Bool-cases, inl, inr,
}
use progressive_lsp.Control.TraceRing.{LogRecord}
use progressive_lsp.Log.Batch.{
  CrashSafeBatch, is_empty, no_records, retry_cap, push, take_for_commit, on_commit_ok,
  keep_for_retry, on_commit_fail, take_meta_row,
}
use progressive_lsp.Log.Writer.{
  ActorMsg, record_msg, flush_msg, shutdown_msg, Mailbox, count_records, remove_record, try_push,
  Writer, Outcome, push_meta, with_meta, write_batch,
}

count_records-append :
    (xs ys : List ActorMsg) → count_records (xs ++ ys) ≡ count_records xs + count_records ys
count_records-append [] ys = omega arith
count_records-append (x ∷ xs) ys = ground (arith, count_records-append xs ys)

count_records-remove :
    (queue : List ActorMsg) → count_records (remove_record queue) ≡ count_records queue - 1
count_records-remove [] = omega arith
count_records-remove (record_msg r ∷ queue) = omega arith
count_records-remove (flush_msg sender ∷ queue) = omega (arith, count_records-remove queue)
count_records-remove (shutdown_msg ∷ queue) = omega (arith, count_records-remove queue)

pub try_push-bounded :
    (msg : ActorMsg) (mb : Mailbox)
    → 0 < mb.cap
    → count_records mb.queue ≤ mb.cap
    → count_records (try_push msg mb).queue ≤ mb.cap
unfolding try_push
try_push-bounded msg mb pos h = ground (
  arith,
  count_records-append (remove_record mb.queue) (msg ∷ []),
  count_records-append mb.queue (msg ∷ []),
  count_records-remove mb.queue,
)

-- The queue of retries is within its cap, and a batch that is not written yet is not full.
pub record IsBounded (b : CrashSafeBatch) : Type 0 where
  pub retry_within : length b.retry ≤ retry_cap
  pub not_full : length b.pending < b.batch_max

keep_for_retry-within :
    (r : LogRecord) (b : CrashSafeBatch)
    → length b.retry ≤ retry_cap
    → length (keep_for_retry r b).retry ≤ retry_cap
unfolding keep_for_retry
keep_for_retry-within r b h = ground (
  arith,
  length-append b.retry (r ∷ []),
  length-append (drop 1 b.retry) (r ∷ []),
  length-drop 1 b.retry,
)

keep_for_retry-pending :
    (r : LogRecord) (b : CrashSafeBatch) → (keep_for_retry r b).pending ≡ b.pending
unfolding keep_for_retry
keep_for_retry-pending r b = ground arith

keep_for_retry-batch_max :
    (r : LogRecord) (b : CrashSafeBatch) → (keep_for_retry r b).batch_max ≡ b.batch_max
unfolding keep_for_retry
keep_for_retry-batch_max r b = ground arith

on_commit_fail-within :
    (rows : List LogRecord) (b : CrashSafeBatch)
    → length b.retry ≤ retry_cap
    → (length (on_commit_fail rows b).retry ≤ retry_cap)
      × ((on_commit_fail rows b).pending ≡ b.pending)
      × ((on_commit_fail rows b).batch_max ≡ b.batch_max)
unfolding on_commit_fail
on_commit_fail-within [] b h = (h, refl, refl)
on_commit_fail-within (r ∷ rows) b h =
    let (within, same, same_max) =
      on_commit_fail-within rows (keep_for_retry r b) (keep_for_retry-within r b h) in
    (within, same ∙ keep_for_retry-pending r b, same_max ∙ keep_for_retry-batch_max r b)

take_meta_row-fields :
    (now_ms : ℕ) (b : CrashSafeBatch)
    → (let b' = (take_meta_row now_ms b).0 in
        (b'.pending ≡ b.pending) × (b'.retry ≡ b.retry) × (b'.batch_max ≡ b.batch_max))
unfolding take_meta_row
take_meta_row-fields now_ms b = ground arith

pub write_batch-IsBounded :
    (out : Outcome) (w : Writer)
    → 0 < w.batch.batch_max
    → IsBounded (write_batch out w).batch
      × ((write_batch out w).batch.batch_max ≡ w.batch.batch_max)
      × ((write_batch out w).mailbox ≡ w.mailbox)
unfolding write_batch take_for_commit on_commit_ok
write_batch-IsBounded out w pos =
    let emptied = record w.batch { pending = []; retry = [] } in
    let taken = (take_meta_row out.now_ms emptied).0 in
    let (no_pending, no_retry, same_max) = take_meta_row-fields out.now_ms emptied in
    let rows = with_meta (w.batch.retry ++ w.batch.pending) (take_meta_row out.now_ms emptied).1 in
    let failed = on_commit_fail-within rows taken (omega (arith, ap length no_retry)) in
    elim (Bool-cases out.written) [
      | inl works ↦ rw works (
        record {
          retry_within = rw no_retry (omega arith);
          not_full = rw (no_pending, same_max) pos;
        },
        same_max,
        refl,
      )
      | inr fails ↦ rw fails (
        record {
          retry_within = failed.0;
          not_full = rw (failed.1, failed.2, no_pending, same_max) pos;
        },
        failed.2 ∙ same_max,
        refl,
      )
    ]

-- A commit keeps the limit of the batch, whose records then fit, and the queue of the mailbox.
abbrev pub CommitBounds : Writer → Writer → Type 0
CommitBounds w w' =
    IsBounded w'.batch
    × (w'.batch.batch_max ≡ w.batch.batch_max)
    × (w'.mailbox.queue ≡ w.mailbox.queue)
    × (w'.mailbox.cap ≡ w.mailbox.cap)

no_records-length : (rs : List LogRecord) → no_records rs ≡ true → length rs ≡ 0
no_records-length [] h = refl
no_records-length (r ∷ rs) h = cc

pub push_meta-batch_max :
    (out : Outcome) (b : CrashSafeBatch) → (push_meta out b).batch_max ≡ b.batch_max
unfolding take_meta_row push
push_meta-batch_max out b = ground arith

pub empty-IsBounded : (b : CrashSafeBatch) → 0 < b.batch_max → is_empty b ≡ true → IsBounded b
empty-IsBounded b pos h = ground (arith, no_records-length b.pending, no_records-length b.retry)
