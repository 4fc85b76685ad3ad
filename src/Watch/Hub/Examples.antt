-- ===== src/Watch/Hub/Examples.antt =====
-- Concrete runs of the hub, and of the coalescer over several calls (progressive-lsp-watch).
use progressive_lsp.Base.{
  ◌≡◌, refl, inl, false, List, [], ◌∷◌, ◌++◌, Text, codes, none, some, arith, In, text_eq,
}
use progressive_lsp.Watch.{
  create, modify, buffer, WatchEvent, RawWatchEvent, disk_event, empty_batch,
}
use progressive_lsp.Watch.Journal.{
  since_generation, new_journal, record_change, trim, matched, gap, distinct_paths, query,
}
use progressive_lsp.Watch.Coalescer.{
  WatchCoalescer, with_limits, ingest, flush_now, flush_pending, record_all, files_since_query,
}
use progressive_lsp.Watch.Coalescer.CatchUp.{
  Call, ingests, flushes_now, run, step, left, left_in, files_since_complete,
}
use progressive_lsp.Watch.Coalescer.Conservation.{
  taken_in, change_paths, event_paths, handed, events_in, left-append-pending,
}
use progressive_lsp.Watch.Hub.{
  publish, stop, command, timeout, SystemRound, FakeRound, run_system_rounds,
}
use progressive_lsp.Watch.Hub.Deliveries.{delivered, run_system_rounds-delivers}

abbrev path_a : Text
path_a = codes "a"

abbrev event_a : WatchEvent
event_a = record { path = path_a; kind = modify; source = buffer }

abbrev raw_b : RawWatchEvent
raw_b = record { path = codes "b"; kind = create }

abbrev narrow : WatchCoalescer
narrow = record {
  window_ms = 50;
  overflow_limit = 1;
  pending = [];
  window_opened_at_ms = none;
  generation = 0;
  journal = record {
    entries = [];
    current_generation = 0;
    limit = 4;
    overflowed = false;
    retained_from_generation = 0;
  };
  last_batch = record { events = []; overflow = false; need_rescan = false; generation = 0 };
}

-- One event that is flushed, and one that waits.
abbrev calls : List Call
calls = ingests 5 (event_a ∷ []) ∷ flushes_now 6 ∷ ingests 7 (event_a ∷ []) ∷ []

files_since_complete_example :
    In path_a (files_since_query (run (with_limits 50 4 4) calls) (some (since_generation 0))).paths
unfolding run step left left_in with_limits new_journal empty_batch ingest flush_now flush_pending
    record_all record_change trim files_since_query query matched gap distinct_paths
files_since_complete_example =
    files_since_complete 50 4 4 calls 0 (record { path = path_a; generation = 1; unix_ms = 6 })
      (inl refl) (omega arith) refl

left-append-pending_example :
    (handed (with_limits 50 4 4) calls ++ (run (with_limits 50 4 4) calls).pending
      ≡ events_in calls)
    × (change_paths (left (with_limits 50 4 4) calls)
          ++ event_paths (run (with_limits 50 4 4) calls).pending
        ≡ taken_in calls)
left-append-pending_example = left-append-pending 50 4 4 calls

abbrev rounds : List SystemRound
rounds =
    record { now = 5; received = command (publish event_a); commands = []; polled = [] }
    ∷ record { now = 9; received = timeout; commands = []; polled = raw_b ∷ [] }
    ∷ []

abbrev fake_rounds : List FakeRound
fake_rounds = record { commands = publish event_a ∷ []; polled = raw_b ∷ []; idle = some stop } ∷ []

run_system_rounds-delivers_example :
    delivered (run_system_rounds narrow rounds) ≡ event_a ∷ disk_event (codes "b") create ∷ []
run_system_rounds-delivers_example =
    run_system_rounds-delivers narrow rounds refl (omega arith) (ground arith)
