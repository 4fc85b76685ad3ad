-- ===== src/Log/Writer/Bounds.antt =====
-- What the log holds back stays within its limits (progressive-lsp-log/src/actor.rs, batch.rs).
use progressive_lsp.Base.{
  ℕ, ◌≤◌, ◌<◌, ◌≡◌, refl, ap, ◌∙◌, List, [], ◌∷◌, Bool, true, false, arith, length-append,
  if◌then◌else◌,
}
use progressive_lsp.Control.TraceRing.{LogRecord}
use progressive_lsp.Log.Batch.{
  CrashSafeBatch, with_limits, is_empty, push, should_commit, note_channel_drops,
}
use progressive_lsp.Log.Writer.{
  ActorMsg, record_msg, flush_msg, shutdown_msg, Mailbox, count_records, try_push, Writer,
  new_writer, Outcome, push_meta, write_batch, commit, handle, waits_with_timeout, turn, Step, send,
  take_turn, step, run,
}
use progressive_lsp.Log.Writer.Order.{turn-empty, turn-message, with_queue}
use progressive_lsp.Log.Writer.Room.{
  try_push-bounded, IsBounded, write_batch-IsBounded, CommitBounds, push_meta-batch_max,
  empty-IsBounded,
}

from_write :
    (w w' : Writer) (out : Outcome)
    → 0 < w'.batch.batch_max
    → w'.batch.batch_max ≡ w.batch.batch_max
    → w'.mailbox.queue ≡ w.mailbox.queue
    → w'.mailbox.cap ≡ w.mailbox.cap
    → CommitBounds w (write_batch out w')
from_write w w' out pos same_max same_queue same_cap =
    let (bounded, kept_max, same) = write_batch-IsBounded out w' pos in
    (
      bounded,
      kept_max ∙ same_max,
      ap (λ m. m.queue) same ∙ same_queue,
      ap (λ m. m.cap) same ∙ same_cap,
    )

if_either :
    {A : Type 0} (P : A → Type 0) (b : Bool) (x y : A)
    → (b ≡ true → P x)
    → (b ≡ false → P y)
    → P (if b then x else y)
if_either P true x y p q = p refl
if_either P false x y p q = q refl

commit-CommitBounds :
    (out : Outcome) (w : Writer) → 0 < w.batch.batch_max → CommitBounds w (commit out w)
unfolding commit note_channel_drops
commit-CommitBounds out w pos =
    let noted = note_channel_drops w.mailbox.dropped w.batch in
    let filled = push_meta out noted in
    let w' = record w { mailbox = record w.mailbox { dropped = 0 }; batch = noted } in
    let same_max : filled.batch_max ≡ w.batch.batch_max = push_meta-batch_max out noted in
    let w'' = record w' { batch = filled } in
    if_either (CommitBounds w) (is_empty noted)
      (if is_empty filled then w'' else write_batch out w'') (write_batch out w')
      (λ empty.
        if_either (CommitBounds w) (is_empty filled) w'' (write_batch out w'')
          (λ still. (empty-IsBounded filled (rw same_max pos) still, same_max, refl, refl))
          (λ meta. from_write w w'' out (rw same_max pos) same_max refl refl))
      (λ full. from_write w w' out pos refl refl refl)

push-IsBounded :
    (r : LogRecord) (now_ms : ℕ) (b : CrashSafeBatch)
    → IsBounded b
    → (push r now_ms b).1 ≡ false
    → IsBounded (push r now_ms b).0
unfolding push should_commit
push-IsBounded r now_ms b v room =
    ground (arith, v.retry_within, v.not_full, room, length-append b.pending (r ∷ []))

-- Before a message is handled and after it the batch is within its limits.
handle-CommitBounds :
    (out : Outcome) (msg : ActorMsg) (w : Writer)
    → IsBounded w.batch
    → CommitBounds w (handle out msg w)
unfolding handle push
handle-CommitBounds out (record_msg r) w v =
    let b = (push r out.record_ms w.batch).0 in
    let w' = record w { batch = b } in
    let pos : 0 < w.batch.batch_max = omega (arith, v.not_full) in
    if_either (CommitBounds w) (push r out.record_ms w.batch).1 (commit out w') w'
      (λ full. commit-CommitBounds out w' pos)
      (λ room. (push-IsBounded r out.record_ms w.batch v room, refl, refl, refl))
handle-CommitBounds out (flush_msg sender) w v =
    commit-CommitBounds out w (omega (arith, v.not_full))
handle-CommitBounds out shutdown_msg w v = commit-CommitBounds out w (omega (arith, v.not_full))

-- The writer holds no more than its limits allow.
pub record IsWithin (w : Writer) : Type 0 where
  pub batch_bounded : IsBounded w.batch
  pub cap_pos : 0 < w.mailbox.cap
  pub queue_within : count_records w.mailbox.queue ≤ w.mailbox.cap

within :
    (w w' : Writer)
    → 0 < w.mailbox.cap
    → count_records w.mailbox.queue ≤ w.mailbox.cap
    → CommitBounds w w'
    → IsWithin w'
within w w' pos fits (bounded, same_max, same_queue, same_cap) = record {
  batch_bounded = bounded;
  cap_pos = rw same_cap pos;
  queue_within = rw (same_queue, same_cap) fits;
}

turn_of-IsWithin :
    (out : Outcome) (w : Writer) (queue : List ActorMsg)
    → w.mailbox.queue ≡ queue
    → IsWithin w
    → IsWithin (turn out w)
turn_of-IsWithin out w [] h v =
    let commits : IsWithin (commit out w) =
      within w (commit out w) v.cap_pos v.queue_within
        (commit-CommitBounds out w (omega (arith, v.batch_bounded.not_full))) in
    let idles = if waits_with_timeout w.batch then commit out w else w in
    rw (turn-empty out w h) (
      if_either IsWithin w.stopped w idles (λ _. v)
        (λ _.
          if_either IsWithin (waits_with_timeout w.batch) (commit out w) w (λ _. commits) (λ _. v)))
turn_of-IsWithin out w (msg ∷ queue) h v =
    let w' = with_queue queue w in
    let fewer : count_records queue ≤ w.mailbox.cap =
      (let e = rw h at v.queue_within in ground (arith, e)) in
    rw (turn-message out w msg queue h) (
      if_either IsWithin w.stopped w (handle out msg w') (λ _. v)
        (λ _.
          within w' (handle out msg w') v.cap_pos fewer
            (handle-CommitBounds out msg w' v.batch_bounded)))

try_push-cap : (msg : ActorMsg) (mb : Mailbox) → (try_push msg mb).cap ≡ mb.cap
unfolding try_push
try_push-cap msg mb = ground arith

step-IsWithin : (s : Step) (w : Writer) → IsWithin w → IsWithin (step s w)
step-IsWithin (send msg) w v = record {
  batch_bounded = v.batch_bounded;
  cap_pos = rw (try_push-cap msg w.mailbox) v.cap_pos;
  queue_within =
      rw (try_push-cap msg w.mailbox) (try_push-bounded msg w.mailbox v.cap_pos v.queue_within);
}
step-IsWithin (take_turn out) w v = turn_of-IsWithin out w w.mailbox.queue refl v

run_from-IsWithin : (steps : List Step) (w : Writer) → IsWithin w → IsWithin (run steps w)
run_from-IsWithin [] w v = v
run_from-IsWithin (s ∷ steps) w v = run_from-IsWithin steps (step s w) (step-IsWithin s w v)

-- However sends, turns and failing commits follow each other, the queue of retries of a new
-- writer holds at most 1024 records, its batch fewer than the limit of a batch, and its mailbox
-- at most its cap.
pub run-IsWithin :
    (cap batch_max batch_ms now_ms : ℕ) (steps : List Step)
    → IsWithin (run steps (new_writer cap (with_limits batch_max batch_ms now_ms)))
run-IsWithin cap batch_max batch_ms now_ms steps =
    run_from-IsWithin steps (new_writer cap (with_limits batch_max batch_ms now_ms)) (record {
      batch_bounded = record { retry_within = omega arith; not_full = omega arith };
      cap_pos = omega arith;
      queue_within = omega arith;
    })
