-- ===== src/Log/Examples.antt =====
-- Concrete batches and a concrete order of senders and writer (progressive-lsp-log).
use progressive_lsp.Base.{◌≡◌, List, [], ◌∷◌, true, false, none, arith, codes, Text}
use progressive_lsp.Control.TraceRing.{LogRecord, LogLevel, error, info}
use progressive_lsp.Log.Batch.{with_limits, on_commit_fail}
use progressive_lsp.Log.Batch.Retries.{on_commit_fail_lem}
use progressive_lsp.Log.Writer.{
  record_msg, flush_msg, shutdown_msg, Outcome, Step, send, take_turn, new_writer, run,
}
use progressive_lsp.Log.Writer.Stored.{everything}
use progressive_lsp.Log.Writer.Order.{everything-run}
use progressive_lsp.Log.Writer.Bounds.{IsWithin, run-IsWithin}

abbrev entry : LogLevel → Text → LogRecord
entry level message = record {
  ts_unix_ms = 5;
  level = level;
  component = none;
  content_path = none;
  content_file = none;
  content_line = none;
  operation = none;
  message = message;
  extras = none;
}

abbrev fails : Outcome
fails = record { record_ms = 6; meta_ms = 6; push_ms = 6; now_ms = 6; written = false }

abbrev works : Outcome
works = record fails { written = true }

-- A commit fails, and the record that comes next is written with the first one.
abbrev steps : List Step
steps =
    send (record_msg (entry error (codes "a")))
    ∷ take_turn fails
    ∷ send (record_msg (entry info (codes "b")))
    ∷ take_turn works
    ∷ send (flush_msg 3)
    ∷ take_turn works
    ∷ send (record_msg (entry info (codes "c")))
    ∷ send shutdown_msg
    ∷ []

everything-run_example :
    everything (run steps (new_writer 8 (with_limits 4 50 5)))
    ≡ entry error (codes "a") ∷ entry info (codes "b") ∷ entry info (codes "c") ∷ []
everything-run_example = everything-run 8 4 50 5 steps (omega arith) (omega arith)

run-IsWithin_example : IsWithin (run steps (new_writer 2 (with_limits 4 50 5)))
run-IsWithin_example = run-IsWithin 2 4 50 5 steps

on_commit_fail_lem_example :
    on_commit_fail
      (entry error (codes "b") ∷ [])
      (record (with_limits 4 50 5) { retry = entry error (codes "a") ∷ [] })
    ≡ record (with_limits 4 50 5) { retry = entry error (codes "a") ∷ entry error (codes "b") ∷ [] }
on_commit_fail_lem_example =
    on_commit_fail_lem (entry error (codes "b") ∷ [])
      (record (with_limits 4 50 5) { retry = entry error (codes "a") ∷ [] }) (omega arith)
      (omega arith)
