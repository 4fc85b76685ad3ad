-- ===== src/Watch/Coalescer.antt =====
-- progressive-lsp-watch/src/coalescer.rs: the pending events of one window, and what a flush or an
-- overflow makes of them. The clock is a port: each call is given the times that it reads, in the
-- order in which it reads them. Log lines are not modelled.
pub mod Batches
pub mod CatchUp
pub mod Conservation
use progressive_lsp.Base.{
  ℕ, zero, suc, ◌+◌, ◌-◌, ◌≡◌, Bool, true, false, List, [], ◌∷◌, ◌++◌, map, Text, Option, none,
  some, if◌then◌else◌, ltb, leb, max, length, saturating_add,
}
use progressive_lsp.Watch.{
  WatchKind, modify, WatchEvent, RawWatchEvent, WatchBatch, disk_event, empty_batch, parse_kind,
}
use progressive_lsp.Watch.Journal.{
  FilesSinceJournal, FilesSinceQuery, FilesSinceAnswer, new_journal, record_change, mark_overflow,
  query,
}

abbrev pub default_window_ms : ℕ
default_window_ms = 50

abbrev pub default_overflow_limit : ℕ
default_overflow_limit = 16384

abbrev pub default_files_since_limit : ℕ
default_files_since_limit = 256

pub record WatchCoalescer : Type 0 where
  pub window_ms : ℕ
  pub overflow_limit : ℕ
  pub pending : List WatchEvent
  pub window_opened_at_ms : Option ℕ
  pub generation : ℕ
  pub journal : FilesSinceJournal
  pub last_batch : WatchBatch

unfoldable pub with_limits : ℕ → ℕ → ℕ → WatchCoalescer
unfolding new_journal empty_batch
with_limits window_ms overflow_limit files_since_limit = record {
  window_ms = max window_ms 1;
  overflow_limit = max overflow_limit 1;
  pending = [];
  window_opened_at_ms = none;
  generation = 0;
  journal = new_journal files_since_limit;
  last_batch = empty_batch 0;
}

-- WatchCoalescer::new
abbrev pub new_coalescer : WatchCoalescer
new_coalescer = with_limits default_window_ms default_overflow_limit default_files_since_limit

unfoldable pub force_overflow : WatchCoalescer → WatchCoalescer
force_overflow c =
    let generation = saturating_add c.generation 1 in
    record c {
      generation = generation;
      journal = mark_overflow c.journal generation;
      pending = [];
      window_opened_at_ms = none;
      last_batch = record {
        events = c.pending;
        overflow = true;
        need_rescan = true;
        generation = generation;
      };
    }

abbrev pub open_window : WatchCoalescer → ℕ → WatchCoalescer
open_window c now = record c {
  window_opened_at_ms = elim c.pending [ [] ↦ some now | _ ∷ _ ↦ c.window_opened_at_ms ];
}

abbrev pub accept : WatchCoalescer → ℕ → WatchEvent → WatchCoalescer
accept c now ev = record (open_window c now) { pending = c.pending ++ ev ∷ [] }

-- The `for` loop: an event that meets a full list ends it, and the rest of the events is dropped.
unfoldable pub ingest : WatchCoalescer → ℕ → List WatchEvent → WatchCoalescer
ingest c now [] = c
ingest c now (ev ∷ events) =
    let rest = ingest (accept c now ev) now events in
    if leb c.overflow_limit (length c.pending) then force_overflow (open_window c now) else rest

unfoldable pub ingest_raw : WatchCoalescer → ℕ → List RawWatchEvent → WatchCoalescer
ingest_raw c now events = ingest c now (map (λ e. disk_event e.path e.kind) events)

unfoldable pub record_all : FilesSinceJournal → ℕ → ℕ → List WatchEvent → FilesSinceJournal
record_all j generation now [] = j
record_all j generation now (ev ∷ events) =
    record_all (record_change j ev.path generation now) generation now events

unfoldable pub flush_pending : WatchCoalescer → Bool → ℕ → WatchBatch × WatchCoalescer
flush_pending c overflow now =
    let generation = saturating_add c.generation 1 in
    let recorded = record_all c.journal generation now c.pending in
    let batch : WatchBatch = record {
      events = c.pending;
      overflow = overflow;
      need_rescan = overflow;
      generation = generation;
    } in
    (
      batch,
      record c {
        generation = generation;
        journal = if overflow then mark_overflow recorded generation else recorded;
        pending = [];
        window_opened_at_ms = none;
        last_batch = batch;
      },
    )

abbrev emit : WatchBatch × WatchCoalescer → Option WatchBatch × WatchCoalescer
emit (batch, c) = (some batch, c)

unfoldable pub flush_now : WatchCoalescer → ℕ → Option WatchBatch × WatchCoalescer
unfolding flush_pending
flush_now c now = elim c.pending [ [] ↦ (none, c) | _ ∷ _ ↦ emit (flush_pending c false now) ]

-- `at` is the time that the test of the window reads, `now` the one that the flush reads.
abbrev flush_opened : WatchCoalescer → ℕ → ℕ → ℕ → Option WatchBatch × WatchCoalescer
flush_opened c opened at now = elim c.pending [
  | [] ↦ (none, c)
  | _ ∷ _ ↦ if ltb (at - opened) c.window_ms then (none, c) else emit (flush_pending c false now)
]

unfoldable pub flush_due : WatchCoalescer → ℕ → ℕ → Option WatchBatch × WatchCoalescer
unfolding flush_pending
flush_due c at now = elim c.window_opened_at_ms [
  | none ↦ (none, c)
  | some opened ↦ flush_opened c opened at now
]

unfoldable pub files_since_query : WatchCoalescer → Option FilesSinceQuery → FilesSinceAnswer
files_since_query c q = query c.journal q

-- An unknown kind is read as a modification.
unfoldable pub kind_from_str : Text → WatchKind
kind_from_str s = elim (parse_kind s) [ none ↦ modify | some k ↦ k ]
