-- ===== src/Watch/Journal/Answers.antt =====
-- What an answer of `FilesSinceJournal::query` says (progressive-lsp-watch/src/journal.rs).
use progressive_lsp.Base.{
  ℕ, suc, ◌≤◌, ◌<◌, ◌≡◌, ◌≢◌, ◌↔◌, refl, ◌⊎◌, inl, inr, true, false, List, [], ◌∷◌, ◌++◌, Text,
  Option, none, some, arith, ltb, Bool-cases, length, take, In, In-append, In-append_left,
  In-append_right, In-keep, keep-In, contains, contains→In, In→contains, length-take, if◌then◌else◌,
  text_eq, lt→ltb, take-In, ==_sym, ◌==◌, ◌||◌, zero,
}
use progressive_lsp.Watch.Journal.{
  JournalEntry, FilesSinceJournal, FilesSinceQuery, since_generation, new_journal, selects, matched,
  gap, distinct_paths, query,
}
use progressive_lsp.Watch.Journal.Complete.{Inv, new_journal-Inv}
use progressive_lsp.Watch.Journal.Runs.{Op, run, recorded, Monotone, run-Inv}

-- No path occurs twice.
abbrev pub Distinct : List Text → Type 0
Distinct [] = Unit
Distinct (p ∷ ps) = (contains ps p ≡ false) × Distinct ps

distinct_paths-keeps :
    (p : Text) (paths : List Text) (es : List JournalEntry)
    → In p paths
    → In p (distinct_paths paths es)
unfolding distinct_paths
distinct_paths-keeps p paths [] m = m
distinct_paths-keeps p paths (e ∷ es) m =
    distinct_paths-keeps p (if contains paths e.path then paths else paths ++ e.path ∷ []) es
      (elim (Bool-cases (contains paths e.path)) [
        | inl old ↦ rw old m
        | inr new ↦ rw new (In-append_left p paths (e.path ∷ []) m)
      ])

-- Every match's path is in the answer's list.
distinct_paths_complete :
    (e : JournalEntry) (paths : List Text) (es : List JournalEntry)
    → In e es
    → In e.path (distinct_paths paths es)
unfolding distinct_paths
distinct_paths_complete e paths [] m = absurd m
distinct_paths_complete e paths (x ∷ es) (inl same) =
    distinct_paths-keeps e.path (if contains paths x.path then paths else paths ++ x.path ∷ []) es (
      rw (← same) (elim (Bool-cases (contains paths x.path)) [
        | inl old ↦ rw old (contains→In x.path paths old)
        | inr new ↦ rw new (In-append_right x.path paths (x.path ∷ []) (inl refl))
      ]))
distinct_paths_complete e paths (x ∷ es) (inr m) =
    distinct_paths_complete e (if contains paths x.path then paths else paths ++ x.path ∷ []) es m

extended_sound :
    (p q : Text) (paths : List Text)
    → In p (if contains paths q then paths else paths ++ q ∷ [])
    → In p paths ⊎ (q ≡ p)
extended_sound p q paths m = elim (Bool-cases (contains paths q)) [
  | inl old ↦ inl (rw old at m)
  | inr new ↦ ground (arith, In-append p paths (q ∷ []) (rw new at m))
]

-- And no other path is.
distinct_paths_sound :
    (p : Text) (paths : List Text) (es : List JournalEntry)
    → In p (distinct_paths paths es)
    → In p paths ⊎ ((e : JournalEntry) × In e es × (e.path ≡ p))
unfolding distinct_paths
distinct_paths_sound p paths [] m = inl m
distinct_paths_sound p paths (x ∷ es) m =
    elim (distinct_paths_sound p (if contains paths x.path then paths else paths ++ x.path ∷ []) es
      m) [
        | inr (e, later, same) ↦ inr (e, inr later, same)
        | inl here ↦ elim (extended_sound p x.path paths here) [
          | inl old ↦ inl old
          | inr same ↦ inr (x, inl refl, same)
        ]
      ]

contains-append_one :
    (p q : Text) (ps : List Text) → contains (ps ++ q ∷ []) p ≡ (contains ps p || q == p)
contains-append_one p q [] = ground arith
contains-append_one p q (x ∷ ps) = ground (arith, contains-append_one p q ps)

Distinct-append_one :
    (q : Text) (ps : List Text) → contains ps q ≡ false → Distinct ps → Distinct (ps ++ q ∷ [])
Distinct-append_one q [] h d = (refl, tt)
Distinct-append_one q (p ∷ ps) h d = (
  rw (contains-append_one p q ps, ==_sym q p) (ground arith),
  Distinct-append_one q ps (ground arith) d.1,
)

distinct_paths-Distinct :
    (paths : List Text) (es : List JournalEntry)
    → Distinct paths
    → Distinct (distinct_paths paths es)
unfolding distinct_paths
distinct_paths-Distinct paths [] d = d
distinct_paths-Distinct paths (x ∷ es) d =
    distinct_paths-Distinct (if contains paths x.path then paths else paths ++ x.path ∷ []) es
      (elim (Bool-cases (contains paths x.path)) [
        | inl old ↦ rw old d
        | inr new ↦ rw new (Distinct-append_one x.path paths new d)
      ])

Distinct-take : (n : ℕ) (ps : List Text) → Distinct ps → Distinct (take n ps)
Distinct-take zero ps d = tt
Distinct-take (suc n) [] d = tt
Distinct-take (suc n) (p ∷ ps) d = (
  elim (Bool-cases (contains (take n ps) p)) [
    | inl h ↦
        absurd (contradiction (In→contains p ps (take-In n p ps (contains→In p (take n ps) h))))
    | inr h ↦ h
  ],
  Distinct-take n ps d.1,
)
  where
    contradiction : contains ps p ≡ true → ⊥
    contradiction h = ground arith

untruncated :
    (j : FilesSinceJournal) (g : ℕ)
    → (query j (some (since_generation g))).truncated ≡ false
    → (j.retained_from_generation ≤ g)
      × ((query j (some (since_generation g))).paths
          ≡ distinct_paths [] (matched j (some (since_generation g))))
unfolding query
untruncated j g h = ground arith

pub query_complete :
    (history : List JournalEntry) (j : FilesSinceJournal) (g : ℕ) (e : JournalEntry)
    → Inv history j
    → (query j (some (since_generation g))).truncated ≡ false
    → In e history
    → g < e.generation
    → In e.path (query j (some (since_generation g))).paths
unfolding query
query_complete history j g e v whole m after =
    let (no_gap, short) = untruncated j g whole in
    rw short (
      distinct_paths_complete e [] (matched j (some (since_generation g))) (
        In-keep (selects (some (since_generation g))) e j.entries (v.complete e m (omega arith))
          (lt→ltb g e.generation after)))

run_new-Inv :
    (limit : ℕ) (ops : List Op) → Monotone 0 ops → Inv (recorded ops) (run (new_journal limit) ops)
unfolding new_journal
run_new-Inv limit ops mono = run-Inv [] (new_journal limit) ops mono (new_journal-Inv limit)

-- After any records and overflows whose generations do not fall, in a new journal of any limit,
-- an answer by a generation that is not marked truncated names the path of every change that was
-- recorded under a later generation.
pub query_since_generation_complete :
    (limit : ℕ) (ops : List Op) (g : ℕ) (e : JournalEntry)
    → Monotone 0 ops
    → (query (run (new_journal limit) ops) (some (since_generation g))).truncated ≡ false
    → In e (recorded ops)
    → g < e.generation
    → In e.path (query (run (new_journal limit) ops) (some (since_generation g))).paths
query_since_generation_complete limit ops g e mono =
    query_complete (recorded ops) (run (new_journal limit) ops) g e (run_new-Inv limit ops mono)

paths-In :
    (j : FilesSinceJournal) (q : Option FilesSinceQuery) (p : Text)
    → In p (query j q).paths
    → In p (distinct_paths [] (matched j q))
unfolding query
paths-In j q p m = elim (Bool-cases (ltb j.limit (length (distinct_paths [] (matched j q))))) [
  | inl long ↦ take-In j.limit p (distinct_paths [] (matched j q)) (rw (long) at m)
  | inr short ↦ rw (short) at m
]

matched-In :
    (j : FilesSinceJournal) (q : Option FilesSinceQuery) (e : JournalEntry)
    → In e (matched j q)
    → In e j.entries × (selects q e ≡ true)
unfolding matched
matched-In j q e m = keep-In (selects q) e j.entries m

-- After any records and overflows whose generations do not fall, each path of an answer to any
-- query is that of a recorded change which the query selects.
pub query_sound :
    (limit : ℕ) (ops : List Op) (q : Option FilesSinceQuery) (p : Text)
    → Monotone 0 ops
    → In p (query (run (new_journal limit) ops) q).paths
    → (e : JournalEntry) × In e (recorded ops) × (e.path ≡ p) × (selects q e ≡ true)
query_sound limit ops q p mono m =
    let j = run (new_journal limit) ops in
    elim (distinct_paths_sound p [] (matched j q) (paths-In j q p m)) [
      | inl none_before ↦ absurd none_before
      | inr (e, found, same) ↦
          let (stored, selected) = matched-In j q e found in
          (e, (run_new-Inv limit ops mono).sound e stored, same, selected)
    ]

-- The paths of an answer are distinct and at most as many as the limit; an answer reports an
-- overflow exactly where the query falls into a gap, and wherever it does it is truncated.
query_shape :
    (j : FilesSinceJournal) (q : Option FilesSinceQuery)
    → Distinct (query j q).paths
      × (length (query j q).paths ≤ j.limit)
      × ((gap j q ≡ true) ↔ ((query j q).overflow ≢ none))
      × ((query j q).overflow ≢ none → (query j q).truncated ≡ true)
unfolding query
query_shape j q =
    let paths = distinct_paths [] (matched j q) in
    let distinct = distinct_paths-Distinct [] (matched j q) tt in
    (
      elim (Bool-cases (ltb j.limit (length paths))) [
        | inl long ↦ rw long (Distinct-take j.limit paths distinct)
        | inr short ↦ rw short distinct
      ],
      ground (arith, length-take j.limit paths),
      ground arith,
      ground arith,
    )
