-- ===== src/Control/TraceRing/Rows.antt =====
-- What fetch returns after appends to the ring (progressive-lsp-control/src/trace_ring.rs).
use progressive_lsp.Base.{
  ℕ, suc, ◌+◌, ◌≤◌, ◌≡◌, ◌≢◌, refl, sym, ap, ◌∙◌, inl, inr, Bool-cases, Bool, true, false, List, [],
  ◌∷◌, ◌++◌, Option, none, some, Text, text_eq, arith, length, length-append, if◌then◌else◌, ◌==◌,
  ==_iff,
}
use mathlib.Core.List.{append-nil, append_assoc}
use progressive_lsp.Base.Map.{Map, get, insert, contains_key, get-insert}
use progressive_lsp.Control.TraceRing.{
  LogRecord, TraceRow, log_record_to_row, or_default, TraceRing, new_ring, evict, entered, append,
  row_cap, last_rows, fetch,
}

abbrev pub run : TraceRing → List (Text × LogRecord) → TraceRing
run ring [] = ring
run ring ((trace_id, r) ∷ appends) = run (append trace_id r ring) appends

-- The rows of the records that were appended under an id.
abbrev pub rows_for : Text → List (Text × LogRecord) → List TraceRow
rows_for id [] = []
rows_for id ((trace_id, r) ∷ appends) =
    let rest = rows_for id appends in if trace_id == id then log_record_to_row r ∷ rest else rest

abbrev rows_of : Text → TraceRing → List TraceRow
rows_of id ring = or_default (get id ring.rows)

evict_fits :
    (order : List Text) (rows : Map Text (List TraceRow))
    → length order ≤ 10000
    → evict order rows ≡ record { rows = rows; order = order }
unfolding evict
evict_fits [] rows h = refl
evict_fits (x ∷ order) rows h = ground arith

entered_fits :
    (id : Text) (ring : TraceRing)
    → suc (length ring.order) ≤ 10000
    → ((entered id ring).rows ≡ ring.rows)
      × (length (entered id ring).order ≤ suc (length ring.order))
entered_fits id ring h = by (contains_key id ring.rows)
  where
    kept :
        evict (ring.order ++ id ∷ []) ring.rows
        ≡ record { rows = ring.rows; order = ring.order ++ id ∷ [] }
    kept =
        evict_fits (ring.order ++ id ∷ []) ring.rows
          (omega (arith, length-append ring.order (id ∷ [])))

    by :
        (known : Bool)
        → ((if known then ring else evict (ring.order ++ id ∷ []) ring.rows).rows ≡ ring.rows)
          × (length (if known then ring else evict (ring.order ++ id ∷ []) ring.rows).order
              ≤ suc (length ring.order))
    by true = (refl, omega arith)
    by false = rw kept (refl, omega (arith, length-append ring.order (id ∷ [])))

rows_of-insert :
    (trace_id id : Text) (row : TraceRow) (rows : Map Text (List TraceRow))
    → or_default (get id (insert trace_id (or_default (get trace_id rows) ++ row ∷ []) rows))
      ≡ (if trace_id == id then or_default (get id rows) ++ row ∷ [] else or_default (get id rows))
rows_of-insert trace_id id row rows = elim (Bool-cases (trace_id == id)) [
  | inl same ↦
      let e : trace_id ≡ id = (==_iff trace_id id).0 same in
      rw (get-insert trace_id id (or_default (get trace_id rows) ++ row ∷ []) rows, same, e) refl
  | inr other ↦
      rw (get-insert trace_id id (or_default (get trace_id rows) ++ row ∷ []) rows, other) refl
]

append_fits :
    (trace_id id : Text) (r : LogRecord) (ring : TraceRing)
    → suc (length ring.order) ≤ 10000
    → id ≢ []
    → (rows_of id (append trace_id r ring)
        ≡ (if trace_id == id then rows_of id ring ++ log_record_to_row r ∷ [] else rows_of id ring))
      × (length (append trace_id r ring).order ≤ suc (length ring.order))
unfolding append
append_fits trace_id id r ring h named = elim (Bool-cases (trace_id == [])) [
  | inl blank ↦ rw blank (ground (arith, ==_iff trace_id [], ==_iff trace_id id), omega arith)
  | inr some_id ↦
      let (same_rows, grown) = entered_fits trace_id ring h in
      rw some_id (rw same_rows (rows_of-insert trace_id id (log_record_to_row r) ring.rows), grown)
]

run_fits :
    (id : Text) (ring : TraceRing) (appends : List (Text × LogRecord))
    → length ring.order + length appends ≤ 10000
    → id ≢ []
    → rows_of id (run ring appends) ≡ rows_of id ring ++ rows_for id appends
run_fits id ring [] few named = sym (append-nil _)
run_fits id ring ((trace_id, r) ∷ appends) few named =
    let (rows, grown) = append_fits trace_id id r ring (omega arith) named in
    run_fits id (append trace_id r ring) appends (omega arith) named
    ∙ ap (λ xs. xs ++ rows_for id appends) rows
    ∙ joined (trace_id == id)
  where
    joined :
        (same : Bool)
        → (if same then rows_of id ring ++ log_record_to_row r ∷ [] else rows_of id ring)
            ++ rows_for id appends
          ≡ rows_of id ring
            ++ (if same then log_record_to_row r ∷ rows_for id appends else rows_for id appends)
    joined true = append_assoc (rows_of id ring) (log_record_to_row r ∷ []) (rows_for id appends)
    joined false = refl

fetch-or_default :
    (id : Text) (max_rows : ℕ) (ring : TraceRing)
    → fetch id max_rows ring ≡ last_rows (row_cap max_rows) (rows_of id ring)
unfolding fetch
fetch-or_default id max_rows ring = by (get id ring.rows)
  where
    by :
        (o : Option (List TraceRow))
        → elim o as (λ _. List TraceRow) [
          | none ↦ []
          | some rows ↦ last_rows (row_cap max_rows) rows
        ]
          ≡ last_rows (row_cap max_rows) (or_default o)
    by none = ground arith
    by (some rows) = refl

-- After at most 10000 appends to a new trace ring, fetching an id that is not empty returns the
-- last rows, up to the cap, of the records that were appended under it, in order.
pub fetch-run :
    (id : Text) (max_rows : ℕ) (appends : List (Text × LogRecord))
    → id ≢ []
    → length appends ≤ 10000
    → fetch id max_rows (run new_ring appends) ≡ last_rows (row_cap max_rows) (rows_for id appends)
unfolding get
fetch-run id max_rows appends named few =
    fetch-or_default id max_rows (run new_ring appends)
    ∙ ap (last_rows (row_cap max_rows)) (run_fits id new_ring appends (omega arith) named)
