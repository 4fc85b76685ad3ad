-- ===== src/Control/TraceRing/Bounds.antt =====
-- How much the ring keeps (progressive-lsp-control/src/trace_ring.rs).
use progressive_lsp.Base.{
  ◌≤◌, ◌≢◌, refl, ◌∙◌, subst, inl, inr, Bool-cases, Bool, true, false, List, [], ◌∷◌, ◌++◌, Option,
  none, some, Text, text_eq, arith, ltb, length, if◌then◌else◌, ◌==◌, ==_iff, In, In-append_left,
  In-append_right,
}
use progressive_lsp.Base.Map.{Map, get, remove, get-insert, get-remove}
use progressive_lsp.Control.TraceRing.{
  LogRecord, TraceRow, log_record_to_row, or_default, TraceRing, new_ring, evict, entered, push_row,
  append,
}
use progressive_lsp.Control.TraceRing.Rows.{run}

-- Only ids of the order have rows.
abbrev pub IsListed : List Text → Map Text (List TraceRow) → Type 0
IsListed order rows = (id : Text) → get id rows ≢ none → In id order

evict-length :
    (order : List Text) (rows : Map Text (List TraceRow)) → length (evict order rows).order ≤ 10000
unfolding evict
evict-length [] rows = omega arith
evict-length (x ∷ order) rows = ground (arith, evict-length order (remove x rows))

IsListed-remove :
    (x : Text) (order : List Text) (rows : Map Text (List TraceRow))
    → IsListed (x ∷ order) rows
    → IsListed order (remove x rows)
IsListed-remove x order rows listed id known = elim (Bool-cases (x == id)) [
  | inl same ↦ absurd (known (rw (get-remove x id rows, same) refl))
  | inr other ↦ ground (arith, listed id, get-remove x id rows, ==_iff x id, known)
]

evict-IsListed :
    (order : List Text) (rows : Map Text (List TraceRow))
    → IsListed order rows
    → IsListed (evict order rows).order (evict order rows).rows
unfolding evict
evict-IsListed [] rows listed = listed
evict-IsListed (x ∷ order) rows listed = elim (Bool-cases (ltb 10000 (length (x ∷ order)))) [
  | inl long ↦ rw long (evict-IsListed order (remove x rows) (IsListed-remove x order rows listed))
  | inr fits ↦ rw fits listed
]

evict-In :
    (id : Text) (order : List Text) (rows : Map Text (List TraceRow))
    → In id (evict (order ++ id ∷ []) rows).order
unfolding evict
evict-In id [] rows = inl refl
evict-In id (x ∷ order) rows = elim (Bool-cases (ltb 10000 (length (x ∷ (order ++ id ∷ []))))) [
  | inl long ↦ rw long (evict-In id order (remove x rows))
  | inr fits ↦ rw fits (In-append_right id (x ∷ order) (id ∷ []) (inl refl))
]

-- The ring between calls.
record Inv (ring : TraceRing) : Type 0 where
  within : length ring.order ≤ 10000
  listed : IsListed ring.order ring.rows

entered-Inv :
    (id : Text) (ring : TraceRing)
    → Inv ring
    → Inv (entered id ring) × In id (entered id ring).order
entered-Inv id ring v = by (get id ring.rows) (v.listed id)
  where
    fresh : Inv (evict (ring.order ++ id ∷ []) ring.rows)
    fresh = record {
      within = evict-length (ring.order ++ id ∷ []) ring.rows;
      listed =
          evict-IsListed (ring.order ++ id ∷ []) ring.rows
            (λ j known. In-append_left j ring.order (id ∷ []) (v.listed j known));
    }

    by :
        (o : Option (List TraceRow))
        → (o ≢ none → In id ring.order)
        → let next : TraceRing =
            if (elim o [ none ↦ false | some _ ↦ true ])
            then ring
            else evict (ring.order ++ id ∷ []) ring.rows in
          Inv next × In id next.order
    by none listed = (fresh, evict-In id ring.order ring.rows)
    by (some rows) listed = (v, listed (ground arith))

push_row-Inv :
    (id : Text) (row : TraceRow) (ring : TraceRing)
    → Inv ring
    → In id ring.order
    → Inv (push_row id row ring)
push_row-Inv id row ring v here = record {
  within = v.within;
  listed = λ j known. elim (Bool-cases (id == j)) [
    | inl same ↦ subst (λ k. In k ring.order) ((==_iff id j).0 same) here
    | inr other ↦ v.listed j (λ gone.
        known
          (get-insert id j (or_default (get id ring.rows) ++ row ∷ []) ring.rows ∙ rw other gone))
  ];
}

append-Inv : (id : Text) (r : LogRecord) (ring : TraceRing) → Inv ring → Inv (append id r ring)
unfolding append
append-Inv id r ring v =
    let (entered_v, here) = entered-Inv id ring v in
    by (id == []) (push_row-Inv id (log_record_to_row r) (entered id ring) entered_v here)
  where
    by :
        (blank : Bool)
        → Inv (push_row id (log_record_to_row r) (entered id ring))
        → Inv (if blank then ring else push_row id (log_record_to_row r) (entered id ring))
    by true w = v
    by false w = w

run-Inv : (ring : TraceRing) (appends : List (Text × LogRecord)) → Inv ring → Inv (run ring appends)
run-Inv ring [] v = v
run-Inv ring ((id, r) ∷ appends) v = run-Inv (append id r ring) appends (append-Inv id r ring v)

new_ring-Inv : Inv new_ring
unfolding get
new_ring-Inv = record { within = omega arith; listed = λ id known. absurd (known refl) }

-- After any appends to a new trace ring, an id that has rows is in the ring's order, which holds
-- at most 10000 ids.
order-run :
    (appends : List (Text × LogRecord)) (id : Text)
    → get id (run new_ring appends).rows ≢ none
    → In id (run new_ring appends).order × (length (run new_ring appends).order ≤ 10000)
order-run appends id known =
    let v = run-Inv new_ring appends new_ring-Inv in (v.listed id known, v.within)
