-- ===== src/Watch/Coalescer/Conservation.antt =====
-- Over any calls the events that leave a coalescer and those that wait are those that were taken in
-- (progressive-lsp-watch/src/coalescer.rs).
use progressive_lsp.Base.{
  ℕ, ◌+◌, ◌≡◌, refl, sym, ap, ◌∙◌, inl, inr, List, [], ◌∷◌, ◌++◌, map, Text, Option, none, some,
  if◌then◌else◌, arith, leb, Bool-cases, length,
}
use mathlib.Core.List.{append-nil, append_assoc, map-append}
use progressive_lsp.Watch.{WatchEvent, WatchBatch}
use progressive_lsp.Watch.Journal.{JournalEntry}
use progressive_lsp.Watch.Coalescer.{
  WatchCoalescer, with_limits, ingest, flush_pending, flush_now, flush_due,
}
use progressive_lsp.Watch.Coalescer.Batches.{IsValid, ingest_fits, ingest_overflows}
use progressive_lsp.Watch.Coalescer.CatchUp.{
  Call, ingests, flushes_now, flushes_due, step, run, changes, left_in, left, Sound, Flushes,
  flush_now-Flushes, flush_due-Flushes, step-Sound, with_limits-Sound,
}

-- The paths of the events that a call takes in.
abbrev pub event_paths : List WatchEvent → List Text
event_paths events = map (λ ev. ev.path) events

abbrev pub change_paths : List JournalEntry → List Text
change_paths entries = map (λ e. e.path) entries

abbrev pub taken_by : Call → List Text
taken_by (ingests now events) = event_paths events
taken_by (flushes_now now) = []
taken_by (flushes_due at now) = []

unfoldable pub taken_in : List Call → List Text
taken_in [] = []
taken_in (call ∷ calls) = taken_by call ++ taken_in calls

change_paths-changes :
    (g now : ℕ) (events : List WatchEvent)
    → change_paths (changes g now events) ≡ event_paths events
change_paths-changes g now [] = refl
change_paths-changes g now (ev ∷ events) = ap (◌∷◌ ev.path) (change_paths-changes g now events)

Flushes-paths :
    (gone : List JournalEntry) (c after : WatchCoalescer) (now : ℕ)
    → Flushes c now gone after
    → change_paths gone ++ event_paths after.pending ≡ event_paths c.pending
unfolding flush_pending
Flushes-paths gone c after now (inl (nothing, same)) = rw (nothing, same)
Flushes-paths gone c after now (inr (all, same)) =
    rw (all, same) (append-nil _ ∙ change_paths-changes _ now c.pending)

ingest-paths :
    (c : WatchCoalescer) (now : ℕ) (events : List WatchEvent)
    → IsValid c
    → change_paths (left_in c (ingests now events)) ++ event_paths (ingest c now events).pending
      ≡ event_paths c.pending ++ event_paths events
unfolding left_in
ingest-paths c now events v =
    elim (Bool-cases (leb (length c.pending + length events) c.overflow_limit)) [
      | inl room ↦
          rw (room, (ingest_fits c now events (ground arith)).0)
            (map-append (λ ev. ev.path) c.pending events)
      | inr full ↦
          rw (full, ingest_overflows c now events v (ground arith))
            (append-nil _
              ∙ change_paths-changes _ now (c.pending ++ events)
              ∙ map-append (λ ev. ev.path) c.pending events)
    ]

step-paths :
    (c : WatchCoalescer) (call : Call)
    → IsValid c
    → change_paths (left_in c call) ++ event_paths (step c call).pending
      ≡ event_paths c.pending ++ taken_by call
unfolding step
step-paths c (ingests now events) v = ingest-paths c now events v
step-paths c (flushes_now now) v =
    Flushes-paths _ c _ now (flush_now-Flushes c now) ∙ sym (append-nil _)
step-paths c (flushes_due at now) v =
    Flushes-paths _ c _ now (flush_due-Flushes c at now) ∙ sym (append-nil _)

run-paths :
    (history : List JournalEntry) (c : WatchCoalescer) (calls : List Call)
    → Sound history c
    → change_paths (left c calls) ++ event_paths (run c calls).pending
      ≡ event_paths c.pending ++ taken_in calls
unfolding run left taken_in
run-paths history c [] v = sym (append-nil _)
run-paths history c (call ∷ calls) v =
    let rest =
      run-paths (history ++ left_in c call) (step c call) calls (step-Sound history c call v) in
    rw (map-append (λ e. e.path) (left_in c call), append_assoc, rest)
      (rw (← append_assoc (change_paths (left_in c call)), step-paths c call v.valid)
        (append_assoc (event_paths c.pending) (taken_by call) (taken_in calls)))

abbrev pub batch_events : Option WatchBatch → List WatchEvent
batch_events none = []
batch_events (some batch) = batch.events

-- The events that a call hands out or, in an overflow, takes out of the queue: those of the batch that a
-- flush returns, and all that an overflow meets.
unfoldable pub handed_by : WatchCoalescer → Call → List WatchEvent
handed_by c (ingests now events) =
    if leb (length c.pending + length events) c.overflow_limit then [] else c.pending ++ events
handed_by c (flushes_now now) = batch_events (flush_now c now).0
handed_by c (flushes_due at now) = batch_events (flush_due c at now).0

unfoldable pub handed : WatchCoalescer → List Call → List WatchEvent
unfolding handed_by
handed c [] = []
handed c (call ∷ calls) = handed_by c call ++ handed (step c call) calls

abbrev pub events_by : Call → List WatchEvent
events_by (ingests now events) = events
events_by (flushes_now now) = []
events_by (flushes_due at now) = []

unfoldable pub events_in : List Call → List WatchEvent
events_in [] = []
events_in (call ∷ calls) = events_by call ++ events_in calls

flush_now-hands :
    (c : WatchCoalescer) (now : ℕ)
    → batch_events (flush_now c now).0 ++ (flush_now c now).1.pending ≡ c.pending
unfolding flush_now flush_pending
flush_now-hands c now = by_pending c.pending refl
  where
    by_pending :
        (events : List WatchEvent)
        → c.pending ≡ events
        → batch_events (flush_now c now).0 ++ (flush_now c now).1.pending ≡ c.pending
    by_pending [] e = ground arith
    by_pending (ev ∷ events) e = ground (arith, append-nil c.pending)

flush_due-hands :
    (c : WatchCoalescer) (at now : ℕ)
    → batch_events (flush_due c at now).0 ++ (flush_due c at now).1.pending ≡ c.pending
unfolding flush_due flush_pending
flush_due-hands c at now = ground (arith, append-nil c.pending)

step-hands :
    (c : WatchCoalescer) (call : Call)
    → IsValid c
    → handed_by c call ++ (step c call).pending ≡ c.pending ++ events_by call
unfolding step handed_by
step-hands c (flushes_now now) v = flush_now-hands c now ∙ sym (append-nil _)
step-hands c (flushes_due at now) v = flush_due-hands c at now ∙ sym (append-nil _)
step-hands c (ingests now events) v =
    elim (Bool-cases (leb (length c.pending + length events) c.overflow_limit)) [
      | inl room ↦ rw (room, (ingest_fits c now events (ground arith)).0) refl
      | inr full ↦
          rw (full, ingest_overflows c now events v (ground arith))
            (append-nil (c.pending ++ events))
    ]

run-hands :
    (history : List JournalEntry) (c : WatchCoalescer) (calls : List Call)
    → Sound history c
    → handed c calls ++ (run c calls).pending ≡ c.pending ++ events_in calls
unfolding run handed events_in
run-hands history c [] v = sym (append-nil _)
run-hands history c (call ∷ calls) v =
    let rest =
      run-hands (history ++ left_in c call) (step c call) calls (step-Sound history c call v) in
    rw (append_assoc (handed_by c call), rest)
      (rw (← append_assoc (handed_by c call), step-hands c call v.valid)
        (append_assoc c.pending (events_by call) (events_in calls)))

-- Over any calls of a new coalescer, the events of the batches that the flushes return and those
-- that the overflows meet, followed by the events that still wait, are in order the events that
-- were taken in; and so are the paths of what stopped waiting, followed by those of what waits.
pub left-append-pending :
    (w o f : ℕ) (calls : List Call)
    → (handed (with_limits w o f) calls ++ (run (with_limits w o f) calls).pending
        ≡ events_in calls)
      × (change_paths (left (with_limits w o f) calls)
            ++ event_paths (run (with_limits w o f) calls).pending
          ≡ taken_in calls)
unfolding with_limits
left-append-pending w o f calls = (
  run-hands [] (with_limits w o f) calls (with_limits-Sound w o f),
  run-paths [] (with_limits w o f) calls (with_limits-Sound w o f),
)
