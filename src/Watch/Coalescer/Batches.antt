-- ===== src/Watch/Coalescer/Batches.antt =====
-- What a flush and an overflow deliver (progressive-lsp-watch/src/coalescer.rs).
use progressive_lsp.Base.{
  ℕ, suc, ◌+◌, ◌-◌, ◌≤◌, ◌<◌, ◌≡◌, ◌≢◌, ◌↔◌, refl, sym, inl, inr, true, false, List, [], ◌∷◌, ◌++◌,
  none, some, arith, leb, Bool-cases, length, take, take-append, length-append, saturating_add,
  u64_max,
}
use mathlib.Core.List.{append-nil, append_assoc}
use progressive_lsp.Watch.{WatchEvent}
use progressive_lsp.Watch.Journal.{mark_overflow}
use progressive_lsp.Watch.Coalescer.{
  WatchCoalescer, with_limits, accept, ingest, force_overflow, flush_now, flush_due,
}

-- Between calls: events wait exactly while a window is open, and no more of them than the limit.
pub record IsValid (c : WatchCoalescer) : Type 0 where
  pub limit_positive : 1 ≤ c.overflow_limit
  pub within : length c.pending ≤ c.overflow_limit
  pub opened : (c.pending ≡ []) ↔ (c.window_opened_at_ms ≡ none)
  pub in_range : c.generation ≤ u64_max

pub with_limits-IsValid : (w o f : ℕ) → IsValid (with_limits w o f)
unfolding with_limits
with_limits-IsValid w o f = ground arith

force_overflow-IsValid : {c : WatchCoalescer} → IsValid c → IsValid (force_overflow c)
unfolding force_overflow
force_overflow-IsValid v = ground arith

pending_step : (xs : List WatchEvent) (ev : WatchEvent) → xs ++ ev ∷ [] ≢ []
pending_step [] ev h = cc
pending_step (x ∷ xs) ev h = cc

open_window-IsValid :
    (c : WatchCoalescer) (now : ℕ) (ev : WatchEvent)
    → IsValid c
    → length c.pending < c.overflow_limit
    → IsValid (accept c now ev)
open_window-IsValid c now ev v room =
    ground (arith, length-append c.pending (ev ∷ []), pending_step c.pending ev)

pub ingest-IsValid :
    (c : WatchCoalescer) (now : ℕ) (events : List WatchEvent)
    → IsValid c
    → IsValid (ingest c now events)
unfolding ingest force_overflow
ingest-IsValid c now [] v = v
ingest-IsValid c now (ev ∷ events) v = elim (Bool-cases (leb c.overflow_limit (length c.pending))) [
  | inl full ↦ rw full (ground arith)
  | inr room ↦
      rw room (
        ingest-IsValid (accept c now ev) now events (open_window-IsValid c now ev v (ground arith)))
]

pub flush_now-IsValid : (c : WatchCoalescer) (now : ℕ) → IsValid c → IsValid (flush_now c now).1
unfolding flush_now
flush_now-IsValid c now v = ground arith

pub flush_due-IsValid :
    (c : WatchCoalescer) (at now : ℕ) → IsValid c → IsValid (flush_due c at now).1
unfolding flush_due
flush_due-IsValid c at now v = ground arith

-- Where there is room for all events, `ingest` appends them in their order, and the generation,
-- the journal and the last batch stay.
pub ingest_fits :
    (c : WatchCoalescer) (now : ℕ) (events : List WatchEvent)
    → length c.pending + length events ≤ c.overflow_limit
    → ((ingest c now events).pending ≡ c.pending ++ events)
      × ((ingest c now events).generation ≡ c.generation)
      × ((ingest c now events).journal ≡ c.journal)
      × ((ingest c now events).last_batch ≡ c.last_batch)
unfolding ingest
ingest_fits c now [] h = (sym (append-nil c.pending), refl, refl, refl)
ingest_fits c now (ev ∷ events) h = rw room (
    ground (
      arith,
      ingest_fits (accept c now ev) now events (omega (arith, sizes)),
      append_assoc c.pending (ev ∷ []) events,
    ))
  where
    room : leb c.overflow_limit (length c.pending) ≡ false
    room = ground arith

    sizes : length (c.pending ++ ev ∷ []) ≡ length c.pending + 1
    sizes = length-append c.pending (ev ∷ [])

-- Where a well-formed coalescer has no room for all events, `ingest` leaves nothing waiting,
-- raises the generation and marks the overflow in the journal, and the flagged last batch holds
-- the first events up to the limit.
pub ingest_overflows :
    (c : WatchCoalescer) (now : ℕ) (events : List WatchEvent)
    → IsValid c
    → c.overflow_limit < length c.pending + length events
    → ingest c now events ≡ record c {
      pending = [];
      window_opened_at_ms = none;
      generation = saturating_add c.generation 1;
      journal = mark_overflow c.journal (saturating_add c.generation 1);
      last_batch = record {
        events = take c.overflow_limit (c.pending ++ events);
        overflow = true;
        need_rescan = true;
        generation = saturating_add c.generation 1;
      };
    }
unfolding ingest force_overflow
ingest_overflows c now [] v h = absurd (omega (arith, v.within))
ingest_overflows c now (ev ∷ events) v h =
    elim (Bool-cases (leb c.overflow_limit (length c.pending))) [
      | inl full ↦ rw full (ground (arith, take-append c.pending (ev ∷ events)))
      | inr room ↦ rw room (
          rw
            (ingest_overflows (accept c now ev) now events
              (open_window-IsValid c now ev v (ground arith))
              (omega (arith, length-append c.pending (ev ∷ []))))
            (ground (arith, append_assoc c.pending (ev ∷ []) events)))
    ]

-- Events that join others leave the window as it was opened.
ingest-keeps_window :
    (c : WatchCoalescer) (now : ℕ) (events : List WatchEvent)
    → c.pending ≢ []
    → length c.pending + length events ≤ c.overflow_limit
    → (ingest c now events).window_opened_at_ms ≡ c.window_opened_at_ms
unfolding ingest
ingest-keeps_window c now [] some_wait h = refl
ingest-keeps_window c now (ev ∷ events) some_wait h = ground (
  arith,
  ingest-keeps_window (accept c now ev) now events (pending_step c.pending ev),
  length-append c.pending (ev ∷ []),
)

-- The window opens at the first event that is taken in while none waits.
ingest-opens_window :
    (c : WatchCoalescer) (now : ℕ) (ev : WatchEvent) (events : List WatchEvent)
    → c.pending ≡ []
    → suc (length events) ≤ c.overflow_limit
    → (ingest c now (ev ∷ events)).window_opened_at_ms ≡ some now
unfolding ingest
ingest-opens_window c now ev events empty h = ground (
  arith,
  ingest-keeps_window (accept c now ev) now events (pending_step c.pending ev),
  length-append c.pending (ev ∷ []),
)

ingest-window_ms :
    (c : WatchCoalescer) (now : ℕ) (events : List WatchEvent)
    → (ingest c now events).window_ms ≡ c.window_ms
unfolding ingest force_overflow
ingest-window_ms c now [] = refl
ingest-window_ms c now (ev ∷ events) = ground (arith, ingest-window_ms (accept c now ev) now events)

-- Of at least one event that fits, taken in while none waits, `flush_due` emits nothing before
-- the window has passed, and after it one unflagged batch of the next generation with all of them
-- in order, which leaves no event waiting.
flush_due-ingest :
    (c : WatchCoalescer) (opened at now : ℕ) (ev : WatchEvent) (events : List WatchEvent)
    → c.pending ≡ []
    → suc (length events) ≤ c.overflow_limit
    → (at - opened < c.window_ms
        → flush_due (ingest c opened (ev ∷ events)) at now ≡ (none, ingest c opened (ev ∷ events)))
      × (c.window_ms ≤ at - opened
          → ((flush_due (ingest c opened (ev ∷ events)) at now).0
              ≡ some (record {
                events = ev ∷ events;
                overflow = false;
                need_rescan = false;
                generation = saturating_add c.generation 1;
              }))
            × ((flush_due (ingest c opened (ev ∷ events)) at now).1.pending ≡ []))
unfolding flush_due
flush_due-ingest c opened at now ev events empty h = (
  λ early. ground (arith, fits.0, fits.1, window, ingest-window_ms c opened (ev ∷ events)),
  λ late. ground (arith, fits.0, fits.1, window, ingest-window_ms c opened (ev ∷ events)),
)
  where
    fits :
        ((ingest c opened (ev ∷ events)).pending ≡ ev ∷ events)
        × ((ingest c opened (ev ∷ events)).generation ≡ c.generation)
    fits = ground (arith, ingest_fits c opened (ev ∷ events))

    window : (ingest c opened (ev ∷ events)).window_opened_at_ms ≡ some opened
    window = ingest-opens_window c opened ev events empty h
