-- ===== src/Watch/Hub/Rounds.antt =====
-- What the hub's subscribers receive (progressive-lsp-watch/src/hub.rs).
use progressive_lsp.Base.{
  ℕ, ◌+◌, ◌<◌, ◌≡◌, refl, sym, ap, ◌∙◌, ◌⊎◌, inl, inr, Bool, true, false, List, [], ◌∷◌, ◌++◌, map,
  Option, none, some, arith, length, length-append, length-map, length-take, subst, All,
}
use mathlib.Core.List.{foldl}
use progressive_lsp.Watch.{WatchBatch, RawWatchEvent, disk_event}
use progressive_lsp.Watch.Coalescer.{
  WatchCoalescer, ingest, ingest_raw, flush_now, flush_due, flush_pending,
}
use progressive_lsp.Watch.Coalescer.Batches.{IsValid, ingest_overflows}
use progressive_lsp.Watch.Hub.{
  HubCommand, Dispatch, drain_commands, flush_round, Received, timeout, first_command, system_rest,
  system_round, SystemRound, deliver, run_system_rounds, run_system_loop, note_batch_flags,
}

-- The flush of a round of the hub is `flush_now`, whenever the window was opened.
pub flush_round-eq-flush_now : (c : WatchCoalescer) (now : ℕ) → flush_round c now ≡ flush_now c now
unfolding flush_round flush_due flush_now
flush_round-eq-flush_now c now = ground arith

flush_now-unflagged :
    (c : WatchCoalescer) (now : ℕ) (batch : WatchBatch)
    → (flush_now c now).0 ≡ some batch
    → (batch.need_rescan ≡ false) × (batch.overflow ≡ false)
unfolding flush_now flush_pending
flush_now-unflagged c now batch h = ground arith

flush_now-empty : (c : WatchCoalescer) (now : ℕ) → c.pending ≡ [] → flush_now c now ≡ (none, c)
unfolding flush_now
flush_now-empty c now h = ground arith

-- A round ends the loop, or flushes.
system_round-cases :
    (c : WatchCoalescer) (now : ℕ) (received : Received) (commands : List HubCommand)
    (polled : List RawWatchEvent)
    → (system_round c now received commands polled ≡ none)
      ⊎ ((d : WatchCoalescer) × (system_round c now received commands polled
            ≡ some (flush_now d now)))
unfolding system_round
system_round-cases c now received commands polled = drained (first_command c now received)
  where
    polled_after :
        (o : Option WatchCoalescer)
        → (system_rest o now polled ≡ none)
          ⊎ ((d : WatchCoalescer) × (system_rest o now polled ≡ some (flush_now d now)))
    polled_after none = inl refl
    polled_after (some d) =
        inr (
          ingest_raw d now polled,
          ap some (flush_round-eq-flush_now (ingest_raw d now polled) now),
        )

    drained :
        (o : Option WatchCoalescer)
        → (elim o as (λ _. Option Dispatch) [
          | none ↦ none
          | some c' ↦ system_rest (drain_commands c' now commands) now polled
        ]
            ≡ none)
          ⊎ ((d : WatchCoalescer) × (elim o as (λ _. Option Dispatch) [
            | none ↦ none
            | some c' ↦ system_rest (drain_commands c' now commands) now polled
          ]
                ≡ some (flush_now d now)))
    drained none = inl refl
    drained (some c') = polled_after (drain_commands c' now commands)

module _ (c d : WatchCoalescer) (r : SystemRound) (rounds : List SystemRound) where
  pub run_flushed :
      system_round c r.now r.received r.commands r.polled ≡ some (flush_now d r.now)
      → run_system_rounds c (r ∷ rounds)
        ≡ deliver (flush_now d r.now).0 (run_system_rounds (flush_now d r.now).1 rounds)
  unfolding run_system_rounds
  run_flushed h = ground arith

run_ended :
    (c : WatchCoalescer) (r : SystemRound) (rounds : List SystemRound)
    → system_round c r.now r.received r.commands r.polled ≡ none
    → run_system_rounds c (r ∷ rounds) ≡ []
unfolding run_system_rounds
run_ended c r rounds h = ground arith

abbrev Unflagged : WatchBatch → Type 0
Unflagged b = (b.need_rescan ≡ false) × (b.overflow ≡ false)

deliver-Unflagged :
    (o : Option WatchBatch) (batches : List WatchBatch)
    → ((b : WatchBatch) → o ≡ some b → Unflagged b)
    → All Unflagged batches
    → All Unflagged (deliver o batches)
deliver-Unflagged none batches first rest = rest
deliver-Unflagged (some b) batches first rest = (first b refl, rest)

-- A batch that an overflow flagged is in no delivery: over any rounds of the hub, from any state,
-- each delivered batch is unflagged.
deliveries-Unflagged :
    (c : WatchCoalescer) (rounds : List SystemRound) → All Unflagged (run_system_rounds c rounds)
unfolding run_system_rounds
deliveries-Unflagged c [] = tt
deliveries-Unflagged c (r ∷ rounds) =
    elim (system_round-cases c r.now r.received r.commands r.polled) [
      | inl ended ↦ subst (All Unflagged) (sym (run_ended c r rounds ended)) tt
      | inr (d, flushed) ↦ subst (All Unflagged) (sym (run_flushed c d r rounds flushed)) (
          deliver-Unflagged (flush_now d r.now).0 (run_system_rounds (flush_now d r.now).1 rounds)
            (flush_now-unflagged d r.now) (deliveries-Unflagged (flush_now d r.now).1 rounds))
    ]

fold-Unflagged :
    (batches : List WatchBatch) (need_rescan : Bool)
    → All Unflagged batches
    → foldl note_batch_flags need_rescan batches ≡ need_rescan
unfolding note_batch_flags
fold-Unflagged [] need_rescan u = refl
fold-Unflagged (b ∷ batches) need_rescan u =
    fold-Unflagged batches (note_batch_flags need_rescan b) u.1 ∙ ground arith

-- Whatever the rounds, the batches that the loop delivers leave the flag that asks for a rescan
-- as it was.
run_system_loop-need_rescan :
    (window_ms : ℕ) (rounds : List SystemRound) (need_rescan : Bool)
    → foldl note_batch_flags need_rescan (run_system_loop window_ms rounds) ≡ need_rescan
unfolding run_system_loop
run_system_loop-need_rescan window_ms rounds need_rescan =
    fold-Unflagged _ need_rescan (deliveries-Unflagged _ rounds)

-- A round of the hub that polls more events than a well-formed coalescer has room for delivers
-- nothing: the events up to the limit stand only in the last batch, which asks for a rescan, and
-- none waits.
system_round_overflows :
    (c : WatchCoalescer) (now : ℕ) (polled : List RawWatchEvent)
    → IsValid c
    → c.overflow_limit < length c.pending + length polled
    → (c' : WatchCoalescer) × (system_round c now timeout [] polled ≡ some (none, c'))
      × (c'.last_batch.need_rescan ≡ true)
      × (length c'.last_batch.events ≡ c.overflow_limit)
      × (c'.pending ≡ [])
unfolding system_round drain_commands ingest_raw
system_round_overflows c now polled v h =
    let events = map (λ (e : RawWatchEvent). disk_event e.path e.kind) polled in
    let sizes = length-map (λ (e : RawWatchEvent). disk_event e.path e.kind) polled in
    let after = ingest_overflows c now events v (omega (arith, sizes)) in
    (
      ingest c now events,
      ap some (
          flush_round-eq-flush_now (ingest c now events) now
          ∙ flush_now-empty (ingest c now events) now (rw after)),
      rw after,
      rw after (
          omega (
            arith,
            length-take c.overflow_limit (c.pending ++ events),
            length-append c.pending events,
            sizes,
          )),
      rw after,
    )
