-- ===== src/Control/Examples.antt =====
-- Concrete appends to the trace ring (progressive-lsp-control/src/trace_ring.rs).
use progressive_lsp.Base.{◌≡◌, List, [], ◌∷◌, Text, codes, none, some, arith, text_eq}
use progressive_lsp.Control.TraceRing.{LogRecord, info, new_ring, fetch, log_record_to_row}
use progressive_lsp.Control.TraceRing.Rows.{run, fetch-run}

abbrev message : Text → LogRecord
message text = record {
  ts_unix_ms = 7;
  level = info;
  component = none;
  content_path = none;
  content_file = none;
  content_line = none;
  operation = some (codes "op");
  message = text;
  extras = none;
}

abbrev appends : List (Text × LogRecord)
appends =
    (codes "tid", message (codes "m0"))
    ∷ (codes "other", message (codes "m1"))
    ∷ (codes "tid", message (codes "m2"))
    ∷ []

fetch-run_example :
    fetch (codes "tid") 1 (run new_ring appends) ≡ log_record_to_row (message (codes "m2")) ∷ []
fetch-run_example = fetch-run (codes "tid") 1 appends (ground arith) (omega arith)
