-- ===== src/Control/TraceRing.antt =====
-- progressive-lsp-control/src/trace_ring.rs: rows of the log by trace id, for a bounded number of ids.
-- Of a LogRecord the fields that name the place in the source where it was made are left out.
pub mod Bounds
pub mod Rows
use progressive_lsp.Base.{
  ℕ, ◌-◌, Bool, true, false, List, [], ◌∷◌, ◌++◌, Option, none, some, Text, text_eq, codes, nat_eq,
  ltb, length, drop, if◌then◌else◌, ◌==◌,
}
use progressive_lsp.Base.Map.{Map, get, insert, remove, contains_key}

abbrev pub max_trace_ids : ℕ
max_trace_ids = 10000

abbrev pub default_max_rows : ℕ
default_max_rows = 500

pub data LogLevel : Type 0 where
  error warn info debug trace : LogLevel

pub record LogRecord : Type 0 where
  pub ts_unix_ms : ℕ
  pub level : LogLevel
  pub component : Option Text
  pub content_path : Option Text
  pub content_file : Option Text
  pub content_line : Option ℕ
  pub operation : Option Text
  pub message : Text
  pub extras : Option (Map Text Text)

pub record TraceRow : Type 0 where
  pub unix_ms : ℕ
  pub level : Text
  pub component : Text
  pub operation : Text
  pub message : Text
  pub extras : Map Text Text

unfoldable pub log_level_str : LogLevel → Text
log_level_str error = codes "error"
log_level_str warn = codes "warn"
log_level_str info = codes "info"
log_level_str debug = codes "debug"
log_level_str trace = codes "trace"

abbrev pub or_default : {A : Type 0} → Option (List A) → List A
or_default none = []
or_default (some xs) = xs

unfoldable pub log_record_to_row : LogRecord → TraceRow
unfolding log_level_str
log_record_to_row r = record {
  unix_ms = r.ts_unix_ms;
  level = log_level_str r.level;
  component = or_default r.component;
  operation = or_default r.operation;
  message = r.message;
  extras = or_default r.extras;
}

pub record TraceRing : Type 0 where
  pub rows : Map Text (List TraceRow)
  pub order : List Text

abbrev pub new_ring : TraceRing
new_ring = record { rows = []; order = [] }

-- `while order.len() > MAX_TRACE_IDS`
unfoldable pub evict : List Text → Map Text (List TraceRow) → TraceRing
evict [] rows = record { rows = rows; order = [] }
evict (old ∷ order) rows =
    let rest = evict order (remove old rows) in
    if ltb max_trace_ids (length (old ∷ order))
    then rest
    else record { rows = rows; order = old ∷ order }

abbrev pub entered : Text → TraceRing → TraceRing
entered trace_id ring =
    if contains_key trace_id ring.rows then ring else evict (ring.order ++ trace_id ∷ []) ring.rows

-- `entry(..).or_default().push(row)`
abbrev pub push_row : Text → TraceRow → TraceRing → TraceRing
push_row trace_id row ring = record ring {
  rows = insert trace_id (or_default (get trace_id ring.rows) ++ row ∷ []) ring.rows;
}

unfoldable pub append : Text → LogRecord → TraceRing → TraceRing
unfolding evict log_record_to_row
append trace_id r ring =
    if trace_id == [] then ring else push_row trace_id (log_record_to_row r) (entered trace_id ring)

abbrev pub row_cap : ℕ → ℕ
row_cap max_rows = if max_rows == 0 then default_max_rows else max_rows

abbrev pub last_rows : ℕ → List TraceRow → List TraceRow
last_rows n rows = drop (length rows - n) rows

unfoldable pub fetch : Text → ℕ → TraceRing → List TraceRow
fetch trace_id max_rows ring = elim (get trace_id ring.rows) [
  | none ↦ []
  | some rows ↦ last_rows (row_cap max_rows) rows
]
