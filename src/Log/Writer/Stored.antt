-- ===== src/Log/Writer/Stored.antt =====
-- What a commit and a message leave of the records, as long as no drop is counted
-- (progressive-lsp-log/src/actor.rs, batch.rs).
use mathlib.Core.List.{append_assoc, append-nil}
use progressive_lsp.Base.{
  ℕ, ◌≤◌, ◌≡◌, refl, ap, ◌∙◌, List, [], ◌∷◌, ◌++◌, arith, length, length-append, Bool-cases, inl,
  inr, if◌then◌else◌,
}
use progressive_lsp.Control.TraceRing.{LogRecord}
use progressive_lsp.Log.Batch.{
  CrashSafeBatch, is_empty, retry_cap, push, take_for_commit, on_commit_ok, take_meta_row,
  note_channel_drops,
}
use progressive_lsp.Log.Batch.Retries.{on_commit_fail_fits}
use progressive_lsp.Log.Writer.{
  ActorMsg, record_msg, flush_msg, shutdown_msg, count_records, Writer, Outcome, push_meta,
  write_batch, commit, handle, Step, send, take_turn,
}

abbrev pub records : List ActorMsg → List LogRecord
records [] = []
records (record_msg r ∷ queue) = r ∷ records queue
records (flush_msg sender ∷ queue) = records queue
records (shutdown_msg ∷ queue) = records queue

-- What the senders have sent.
abbrev pub sent : List Step → List LogRecord
sent [] = []
sent (send msg ∷ steps) = records (msg ∷ []) ++ sent steps
sent (take_turn out ∷ steps) = sent steps

-- The rows in the database and the records that wait, the oldest first.
abbrev pub stored : Writer → List LogRecord
stored w = w.rows ++ (w.batch.retry ++ w.batch.pending)

abbrev pub everything : Writer → List LogRecord
everything w = stored w ++ records w.mailbox.queue

-- Nothing has been dropped, and `k` records are there.
pub record IsWhole (cap k : ℕ) (w : Writer) : Type 0 where
  pub cap_kept : w.mailbox.cap ≡ cap
  pub none_dropped : w.mailbox.dropped ≡ 0
  pub none_counted : w.batch.dropped_count ≡ 0
  pub few : length (everything w) ≤ k

pub length-records : (queue : List ActorMsg) → length (records queue) ≡ count_records queue
length-records [] = refl
length-records (record_msg r ∷ queue) = omega (arith, length-records queue)
length-records (flush_msg sender ∷ queue) = omega (arith, length-records queue)
length-records (shutdown_msg ∷ queue) = omega (arith, length-records queue)

pub records-append : (xs ys : List ActorMsg) → records (xs ++ ys) ≡ records xs ++ records ys
records-append [] ys = refl
records-append (record_msg r ∷ xs) ys = ap (r ∷◌) (records-append xs ys)
records-append (flush_msg sender ∷ xs) ys = records-append xs ys
records-append (shutdown_msg ∷ xs) ys = records-append xs ys

-- A commit of a batch without drops moves rows to the database, or leaves them for the next one.
abbrev written_batch : Outcome → Writer → Writer
written_batch out w =
    let rows = w.batch.retry ++ w.batch.pending in
    if out.written
    then record w {
      batch = record w.batch {
        pending = [];
        retry = [];
        last_commit_ms = out.now_ms;
        dropped_count = 0;
      };
      rows = w.rows ++ rows;
    }
    else record w { batch = record w.batch { pending = []; retry = rows; dropped_count = 0 } }

write_batch_lem :
    (out : Outcome) (w : Writer)
    → w.batch.dropped_count ≡ 0
    → length (w.batch.retry ++ w.batch.pending) ≤ retry_cap
    → write_batch out w ≡ written_batch out w
unfolding write_batch take_for_commit take_meta_row on_commit_ok
write_batch_lem out w h few = ground (
  arith,
  on_commit_fail_fits (w.batch.retry ++ w.batch.pending)
      (record w.batch { pending = []; retry = [] }) few refl h,
)

stored-written_batch : (out : Outcome) (w : Writer) → stored (written_batch out w) ≡ stored w
stored-written_batch out w = elim (Bool-cases out.written) [
  | inl works ↦ rw works (append-nil (w.rows ++ (w.batch.retry ++ w.batch.pending)))
  | inr fails ↦ rw fails (ap (λ rs. w.rows ++ rs) (append-nil (w.batch.retry ++ w.batch.pending)))
]

note_no_drops : (b : CrashSafeBatch) → b.dropped_count ≡ 0 → note_channel_drops 0 b ≡ b
unfolding note_channel_drops
note_no_drops b h = ground (arith, h)

push_no_meta : (out : Outcome) (b : CrashSafeBatch) → b.dropped_count ≡ 0 → push_meta out b ≡ b
unfolding take_meta_row
push_no_meta out b h = ground (arith, h)

-- With no drops to report a commit writes what there is.
commit_lem :
    (out : Outcome) (w : Writer)
    → w.mailbox.dropped ≡ 0
    → w.batch.dropped_count ≡ 0
    → length (w.batch.retry ++ w.batch.pending) ≤ retry_cap
    → commit out w ≡ (if is_empty w.batch then w else written_batch out w)
unfolding commit
commit_lem out w none_dropped none_counted few =
    let same : record w { mailbox = record w.mailbox { dropped = 0 } } ≡ w =
      ground (arith, none_dropped) in
    rw
      (
        none_dropped,
        note_no_drops w.batch none_counted,
        push_no_meta out w.batch none_counted,
        same,
      )
      (ground (arith, write_batch_lem out w none_counted few))

pub commit-keeps :
    (out : Outcome) (w : Writer)
    → w.mailbox.dropped ≡ 0
    → w.batch.dropped_count ≡ 0
    → length (w.batch.retry ++ w.batch.pending) ≤ retry_cap
    → (stored (commit out w) ≡ stored w)
      × ((commit out w).mailbox ≡ w.mailbox)
      × ((commit out w).batch.dropped_count ≡ 0)
commit-keeps out w none_dropped none_counted few =
    rw (commit_lem out w none_dropped none_counted few) (elim (Bool-cases (is_empty w.batch)) [
      | inl empty ↦ rw empty (refl, refl, none_counted)
      | inr full ↦ rw full (stored-written_batch out w, ground arith, ground arith)
    ])

push_lem :
    (r : LogRecord) (now_ms : ℕ) (b : CrashSafeBatch)
    → (push r now_ms b).0 ≡ record b { pending = b.pending ++ r ∷ [] }
unfolding push
push_lem r now_ms b = refl

abbrev with_record : LogRecord → Writer → Writer
with_record r w = record w { batch = record w.batch { pending = w.batch.pending ++ r ∷ [] } }

stored-with_record : (r : LogRecord) (w : Writer) → stored (with_record r w) ≡ stored w ++ r ∷ []
stored-with_record r w = simp append_assoc

handle-record :
    (out : Outcome) (r : LogRecord) (w : Writer)
    → handle out (record_msg r) w
      ≡ (if (push r out.record_ms w.batch).1 then commit out (with_record r w) else with_record r w)
unfolding handle
handle-record out r w = rw (push_lem r out.record_ms w.batch)

-- The records of a batch are among what is stored.
pub batch-few :
    (n : ℕ) (w : Writer) → length (stored w) ≤ n → length (w.batch.retry ++ w.batch.pending) ≤ n
batch-few n w h = omega (arith, length-append w.rows (w.batch.retry ++ w.batch.pending))

handle_commit-keeps :
    (out : Outcome) (w : Writer)
    → w.mailbox.dropped ≡ 0
    → w.batch.dropped_count ≡ 0
    → length (stored w ++ []) ≤ retry_cap
    → (stored (commit out w) ≡ stored w ++ [])
      × ((commit out w).mailbox ≡ w.mailbox)
      × ((commit out w).batch.dropped_count ≡ 0)
handle_commit-keeps out w none_dropped none_counted few = rw (append-nil (stored w)) (
    commit-keeps out w none_dropped none_counted
      (batch-few retry_cap w (rw (append-nil (stored w)) at few)))

-- A message that is taken out of the mailbox is written behind what is stored, if it is a record.
pub handle-keeps :
    (out : Outcome) (msg : ActorMsg) (w : Writer)
    → w.mailbox.dropped ≡ 0
    → w.batch.dropped_count ≡ 0
    → length (stored w ++ records (msg ∷ [])) ≤ retry_cap
    → (stored (handle out msg w) ≡ stored w ++ records (msg ∷ []))
      × ((handle out msg w).mailbox ≡ w.mailbox)
      × ((handle out msg w).batch.dropped_count ≡ 0)
unfolding handle
handle-keeps out (record_msg r) w none_dropped none_counted few =
    let e = stored-with_record r w in
    let fits : length (stored (with_record r w)) ≤ retry_cap = rw e few in
    let (kept, same, zero_count) =
      commit-keeps out (with_record r w) none_dropped none_counted
        (batch-few retry_cap (with_record r w) fits) in
    rw (handle-record out r w) (elim (Bool-cases (push r out.record_ms w.batch).1) [
      | inl full ↦ rw full (kept ∙ e, same, zero_count)
      | inr room ↦ rw room (e, refl, none_counted)
    ])
handle-keeps out (flush_msg sender) w none_dropped none_counted few =
    handle_commit-keeps out w none_dropped none_counted few
handle-keeps out shutdown_msg w none_dropped none_counted few =
    handle_commit-keeps out w none_dropped none_counted few
