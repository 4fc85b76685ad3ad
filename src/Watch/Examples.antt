-- ===== src/Watch/Examples.antt =====
-- Concrete runs of the journal, the coalescer and the hub (progressive-lsp-watch).
use progressive_lsp.Base.{
  ◌≡◌, refl, inl, inr, true, false, List, [], ◌∷◌, Text, codes, none, some, arith, In, text_eq,
  take, saturating_add,
}
use progressive_lsp.Watch.{create, modify, disk, buffer, WatchEvent}
use progressive_lsp.Watch.Journal.{
  JournalEntry, FilesSinceJournal, since_generation, new_journal, record_change, trim,
  mark_overflow, selects, matched, gap, distinct_paths, query,
}
use progressive_lsp.Watch.Journal.Runs.{records, run, step, recorded, Op}
use progressive_lsp.Watch.Journal.Answers.{query_since_generation_complete, query_sound}
use progressive_lsp.Watch.Coalescer.{WatchCoalescer, ingest}
use progressive_lsp.Watch.Coalescer.Batches.{ingest_overflows}

abbrev path_a : Text
path_a = codes "a"

abbrev path_b : Text
path_b = codes "b"

abbrev entry_a : JournalEntry
entry_a = record { path = path_a; generation = 1; unix_ms = 10 }

abbrev entry_b : JournalEntry
entry_b = record { path = path_b; generation = 2; unix_ms = 20 }

abbrev two_changes : List Op
two_changes = records entry_a ∷ records entry_b ∷ []

query_since_generation_complete_example :
    In path_b (query (run (new_journal 4) two_changes) (some (since_generation 1))).paths
unfolding query run step record_change trim new_journal matched gap distinct_paths recorded
query_since_generation_complete_example =
    query_since_generation_complete 4 two_changes 1 entry_b (omega arith, (omega arith, tt)) refl
      (inr (inl refl)) (omega arith)

query_sound_example :
    (e : JournalEntry) × In e (recorded two_changes)
    × (e.path ≡ path_b)
    × (selects (some (since_generation 1)) e ≡ true)
unfolding query run step record_change trim new_journal matched gap distinct_paths recorded
query_sound_example =
    query_sound 4 two_changes (some (since_generation 1)) path_b (omega arith, (omega arith, tt))
      (inl refl)

abbrev overflowed_journal : FilesSinceJournal
overflowed_journal = record {
  entries = entry_b ∷ [];
  current_generation = 2;
  limit = 1;
  overflowed = true;
  retained_from_generation = 1;
}

abbrev full_journal : FilesSinceJournal
full_journal = record {
  entries = entry_a ∷ entry_b ∷ entry_b ∷ entry_b ∷ [];
  current_generation = 2;
  limit = 1;
  overflowed = false;
  retained_from_generation = 0;
}

abbrev small : WatchCoalescer
small = record {
  window_ms = 50;
  overflow_limit = 2;
  pending = [];
  window_opened_at_ms = none;
  generation = 7;
  journal = full_journal;
  last_batch = record { events = []; overflow = false; need_rescan = false; generation = 7 };
}

abbrev event_a : WatchEvent
event_a = record { path = path_a; kind = modify; source = buffer }

abbrev event_b : WatchEvent
event_b = record { path = path_b; kind = create; source = disk }

ingest_overflows_example : ingest small 3 (event_a ∷ event_b ∷ event_b ∷ []) ≡ record small {
  pending = [];
  window_opened_at_ms = none;
  generation = saturating_add 7 1;
  journal = mark_overflow full_journal (saturating_add 7 1);
  last_batch = record {
    events = take 2 (event_a ∷ event_b ∷ event_b ∷ []);
    overflow = true;
    need_rescan = true;
    generation = saturating_add 7 1;
  };
}
ingest_overflows_example =
    ingest_overflows small 3 (event_a ∷ event_b ∷ event_b ∷ []) (ground arith) (omega arith)
