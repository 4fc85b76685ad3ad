-- ===== src/Log/Writer/Order.antt =====
-- As long as nothing overflows, every record gets to the log once and in order, whatever commits fail
-- (progressive-lsp-log/src/actor.rs).
use mathlib.Core.List.{append_assoc, append-nil}
use progressive_lsp.Base.{
  ℕ, ◌+◌, ◌≤◌, ◌≡◌, refl, sym, ap, ◌∙◌, List, [], ◌∷◌, ◌++◌, Bool, true, false, arith, length,
  length-append, if◌then◌else◌, max,
}
use progressive_lsp.Log.Batch.{with_limits, retry_cap}
use progressive_lsp.Log.Writer.{
  ActorMsg, record_msg, flush_msg, shutdown_msg, Mailbox, count_records, try_push, Writer,
  new_writer, Outcome, commit, handle, waits_with_timeout, turn, Step, send, take_turn, step, run,
}
use progressive_lsp.Log.Writer.Stored.{
  records, sent, stored, everything, IsWhole, length-records, records-append, commit-keeps,
  batch-few, handle-keeps,
}

pub turn-empty :
    (out : Outcome) (w : Writer)
    → w.mailbox.queue ≡ []
    → turn out w ≡ (if w.stopped then w else if waits_with_timeout w.batch then commit out w else w)
unfolding turn
turn-empty out w h = ground (arith, h)

abbrev pub with_queue : List ActorMsg → Writer → Writer
with_queue queue w = record w { mailbox = record w.mailbox { queue = queue } }

pub turn-message :
    (out : Outcome) (w : Writer) (msg : ActorMsg) (queue : List ActorMsg)
    → w.mailbox.queue ≡ msg ∷ queue
    → turn out w ≡ (if w.stopped then w else handle out msg (with_queue queue w))
unfolding turn
turn-message out w msg queue h = ground (arith, h)

stored-few : (k : ℕ) (w : Writer) → length (everything w) ≤ k → length (stored w) ≤ k
stored-few k w h = omega (arith, length-append (stored w) (records w.mailbox.queue))

-- What a call keeps of the whole, from what it keeps of the parts.
whole :
    (cap k : ℕ) (w w' : Writer)
    → IsWhole cap k w
    → everything w' ≡ everything w
    → w'.mailbox.cap ≡ w.mailbox.cap
    → w'.mailbox.dropped ≡ 0
    → w'.batch.dropped_count ≡ 0
    → (everything w' ≡ everything w) × IsWhole cap k w'
whole cap k w w' v same same_cap none_dropped none_counted = (
  same,
  record {
    cap_kept = same_cap ∙ v.cap_kept;
    none_dropped = none_dropped;
    none_counted = none_counted;
    few = rw same v.few;
  },
)

-- What a call keeps, whatever its test says.
if_either : (P : Writer → Type 0) (b : Bool) (w w' : Writer) → P w → P w' → P (if b then w else w')
if_either P true w w' p q = p
if_either P false w w' p q = q

abbrev Keeps : ℕ → ℕ → Writer → Writer → Type 0
Keeps cap k w w' = (everything w' ≡ everything w) × IsWhole cap k w'

commit-Keeps :
    (cap k : ℕ) (out : Outcome) (w : Writer)
    → k ≤ retry_cap
    → IsWhole cap k w
    → Keeps cap k w (commit out w)
commit-Keeps cap k out w few v =
    let short = batch-few k w (stored-few k w v.few) in
    let (kept, same, none_left) =
      commit-keeps out w v.none_dropped v.none_counted (omega (arith, short)) in
    whole cap k w (commit out w) v (ground (arith, kept, ap (λ m. m.queue) same))
      (ap (λ m. m.cap) same) (ap (λ m. m.dropped) same ∙ v.none_dropped) none_left

handle-Keeps :
    (cap k : ℕ) (out : Outcome) (w : Writer) (msg : ActorMsg) (queue : List ActorMsg)
    → w.mailbox.queue ≡ msg ∷ queue
    → k ≤ retry_cap
    → IsWhole cap k w
    → Keeps cap k w (handle out msg (with_queue queue w))
handle-Keeps cap k out w msg queue holds few v =
    let split : everything w ≡ (stored w ++ records (msg ∷ [])) ++ records queue =
      rw (holds, records-append (msg ∷ []) queue)
        (sym (append_assoc (stored w) (records (msg ∷ [])) (records queue))) in
    let fits : length (stored w ++ records (msg ∷ [])) ≤ retry_cap = omega (
      arith,
      ap length split,
      v.few,
      length-append (stored w ++ records (msg ∷ [])) (records queue),
    ) in
    let (kept, same, none_left) =
      handle-keeps out msg (with_queue queue w) v.none_dropped v.none_counted fits in
    whole cap k w (handle out msg (with_queue queue w)) v
      (ap (λ m. stored (handle out msg (with_queue queue w)) ++ records m.queue) same
        ∙ ap (λ rs. rs ++ records queue) kept
        ∙ sym split)
      (ap (λ m. m.cap) same) (ap (λ m. m.dropped) same ∙ v.none_dropped) none_left

turn_of-Keeps :
    (cap k : ℕ) (out : Outcome) (w : Writer) (queue : List ActorMsg)
    → w.mailbox.queue ≡ queue
    → k ≤ retry_cap
    → IsWhole cap k w
    → Keeps cap k w (turn out w)
turn_of-Keeps cap k out w [] empty few v = rw (turn-empty out w empty) (
    if_either (Keeps cap k w) w.stopped w (if waits_with_timeout w.batch then commit out w else w)
      (refl, v)
      (if_either (Keeps cap k w) (waits_with_timeout w.batch) (commit out w) w
        (commit-Keeps cap k out w few v) (refl, v)))
turn_of-Keeps cap k out w (msg ∷ queue) holds few v = rw (turn-message out w msg queue holds) (
    if_either (Keeps cap k w) w.stopped w (handle out msg (with_queue queue w)) (refl, v)
      (handle-Keeps cap k out w msg queue holds few v))

-- A turn moves records from the mailbox to what is stored.
turn-Keeps :
    (cap k : ℕ) (out : Outcome) (w : Writer)
    → k ≤ retry_cap
    → IsWhole cap k w
    → Keeps cap k w (turn out w)
turn-Keeps cap k out w few v = turn_of-Keeps cap k out w w.mailbox.queue refl few v

-- A message that is sent stands at the end, if it is a record, and pushes nothing out.
try_push-room :
    (msg : ActorMsg) (mb : Mailbox)
    → count_records mb.queue + length (records (msg ∷ [])) ≤ mb.cap
    → try_push msg mb ≡ record mb { queue = mb.queue ++ msg ∷ [] }
unfolding try_push
try_push-room (record_msg r) mb h = ground arith
try_push-room (flush_msg sender) mb h = ground arith
try_push-room shutdown_msg mb h = ground arith

send-Keeps :
    (cap k : ℕ) (msg : ActorMsg) (w : Writer)
    → k + length (records (msg ∷ [])) ≤ cap
    → IsWhole cap k w
    → (everything (step (send msg) w) ≡ everything w ++ records (msg ∷ []))
      × IsWhole cap (k + length (records (msg ∷ []))) (step (send msg) w)
send-Keeps cap k msg w room v =
    let queued : count_records w.mailbox.queue ≤ k = omega (
      arith,
      v.few,
      length-records w.mailbox.queue,
      length-append (stored w) (records w.mailbox.queue),
    ) in
    let e : stored w ++ records (w.mailbox.queue ++ msg ∷ []) ≡ everything w ++ records (msg ∷ []) =
      rw (records-append w.mailbox.queue (msg ∷ []))
        (sym (append_assoc (stored w) (records w.mailbox.queue) (records (msg ∷ [])))) in
    rw (try_push-room msg w.mailbox (omega (arith, queued, v.cap_kept))) (
      e,
      record {
        cap_kept = v.cap_kept;
        none_dropped = v.none_dropped;
        none_counted = v.none_counted;
        few = rw e (omega (arith, v.few, length-append (everything w) (records (msg ∷ []))));
      },
    )

run-everything :
    (cap k : ℕ) (steps : List Step) (w : Writer)
    → k + length (sent steps) ≤ retry_cap
    → k + length (sent steps) ≤ cap
    → IsWhole cap k w
    → everything (run steps w) ≡ everything w ++ sent steps
run-everything cap k [] w few room v = sym (append-nil (everything w))
run-everything cap k (take_turn out ∷ steps) w few room v =
    let (same, v') = turn-Keeps cap k out w (omega arith) v in
    run-everything cap k steps (turn out w) few room v' ∙ ap (λ rs. rs ++ sent steps) same
run-everything cap k (send msg ∷ steps) w few room v =
    let split : length (sent (send msg ∷ steps))
        ≡ length (records (msg ∷ [])) + length (sent steps) =
      length-append (records (msg ∷ [])) (sent steps) in
    let (same, v') = send-Keeps cap k msg w (omega arith) v in
    run-everything cap (k + length (records (msg ∷ []))) steps (step (send msg) w) (omega arith)
      (omega arith) v'
    ∙ ap (λ rs. rs ++ sent steps) same
    ∙ append_assoc (everything w) (records (msg ∷ [])) (sent steps)

-- However sends, turns of the writer and failing commits follow each other, if no more records
-- are sent than the queue of retries and the mailbox hold, then the rows in the database, the
-- records that wait in the batch and those in the mailbox are together, in order, the records
-- that were sent.
pub everything-run :
    (cap batch_max batch_ms now_ms : ℕ) (steps : List Step)
    → length (sent steps) ≤ retry_cap
    → length (sent steps) ≤ max cap 1
    → everything (run steps (new_writer cap (with_limits batch_max batch_ms now_ms))) ≡ sent steps
everything-run cap batch_max batch_ms now_ms steps few room =
    run-everything (max cap 1) 0 steps (new_writer cap (with_limits batch_max batch_ms now_ms))
      (omega arith) (omega arith)
      (record { cap_kept = refl; none_dropped = refl; none_counted = refl; few = omega arith })
