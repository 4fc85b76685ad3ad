-- ===== src/Watch/Coalescer/CatchUp.antt =====
-- The coalescer's promise to a client that catches up by FilesSince
-- (progressive-lsp-watch/src/coalescer.rs with journal.rs): over any sequence of calls no event is
-- lost in silence.
use progressive_lsp.Base.{
  ℕ, ◌+◌, ◌≤◌, ◌<◌, ◌≡◌, refl, sym, ap, ◌∙◌, ◌⊎◌, inl, inr, false, List, [], ◌∷◌, ◌++◌, map, none,
  some, arith, leb, Bool-cases, length, In, All, if◌then◌else◌, saturating_add,
}
use mathlib.Core.Path.{subst₂}
use mathlib.Core.List.{append-nil, append_assoc}
use progressive_lsp.Watch.{WatchEvent}
use progressive_lsp.Watch.Journal.{
  JournalEntry, FilesSinceJournal, since_generation, mark_overflow, record_change,
}
use progressive_lsp.Watch.Journal.Complete.{
  Inv, record-Inv, generation-record, overflow-Inv, new_journal-Inv,
}
use progressive_lsp.Watch.Journal.Answers.{query_complete}
use progressive_lsp.Watch.Coalescer.{
  WatchCoalescer, with_limits, ingest, record_all, flush_pending, flush_now, flush_due,
  files_since_query,
}
use progressive_lsp.Watch.Coalescer.Batches.{
  IsValid, with_limits-IsValid, ingest-IsValid, ingest_fits, ingest_overflows,
}

-- The calls that change a coalescer, with the times that they read.
pub data Call : Type 0 where
  ingests : ℕ → List WatchEvent → Call
  flushes_now : ℕ → Call
  flushes_due : ℕ → ℕ → Call

unfoldable pub step : WatchCoalescer → Call → WatchCoalescer
step c (ingests now events) = ingest c now events
step c (flushes_now now) = (flush_now c now).1
step c (flushes_due at now) = (flush_due c at now).1

unfoldable pub run : WatchCoalescer → List Call → WatchCoalescer
run c [] = c
run c (call ∷ calls) = run (step c call) calls

abbrev pub changes : ℕ → ℕ → List WatchEvent → List JournalEntry
changes generation now events =
    map (λ ev. record { path = ev.path; generation = generation; unix_ms = now }) events

-- The events that stop waiting in a call, under the generation that the call reaches: those of a
-- flush, and in an overflow all that waited and all that were to be taken in.
unfoldable pub left_in : WatchCoalescer → Call → List JournalEntry
left_in c (ingests now events) =
    if leb (length c.pending + length events) c.overflow_limit
    then []
    else changes (saturating_add c.generation 1) now (c.pending ++ events)
left_in c (flushes_now now) = changes (saturating_add c.generation 1) now c.pending
left_in c (flushes_due at now) = elim (flush_due c at now).0 [
  | none ↦ []
  | some _ ↦ changes (saturating_add c.generation 1) now c.pending
]

unfoldable pub left : WatchCoalescer → List Call → List JournalEntry
left c [] = []
left c (call ∷ calls) = left_in c call ++ left (step c call) calls

pub record Sound (history : List JournalEntry) (c : WatchCoalescer) : Type 0 where
  pub valid : IsValid c
  pub journal : Inv history c.journal
  pub current : c.journal.current_generation ≤ c.generation

record_all-Inv :
    (history : List JournalEntry) (j : FilesSinceJournal) (g now : ℕ) (events : List WatchEvent)
    → j.current_generation ≤ g
    → Inv history j
    → Inv (history ++ changes g now events) (record_all j g now events)
      × ((record_all j g now events).current_generation ≤ g)
unfolding record_all
record_all-Inv history j g now [] h v = (rw append-nil v, h)
record_all-Inv history j g now (ev ∷ events) h v =
    rw (← append_assoc history (e ∷ []) (changes g now events)) (
      record_all-Inv (history ++ e ∷ []) (record_change j ev.path g now) g now events
        (omega (arith, generation-record j e h)) (record-Inv history j e h v))
  where
    e : JournalEntry
    e = record { path = ev.path; generation = g; unix_ms = now }

-- What a call of a flush comes to: nothing leaves, or all that waits does.
abbrev pub Flushes : WatchCoalescer → ℕ → List JournalEntry → WatchCoalescer → Type 0
Flushes c now gone after =
    ((gone ≡ []) × (after ≡ c))
    ⊎ ((gone ≡ changes (saturating_add c.generation 1) now c.pending)
        × (after ≡ (flush_pending c false now).1))

pub flush_now-Flushes :
    (c : WatchCoalescer) (now : ℕ) → Flushes c now (left_in c (flushes_now now)) (flush_now c now).1
unfolding flush_now flush_pending left_in
flush_now-Flushes c now = flushed c.pending refl
  where
    flushed :
        (events : List WatchEvent)
        → c.pending ≡ events
        → Flushes c now (left_in c (flushes_now now)) (flush_now c now).1
    flushed [] e = inl (ap (changes (saturating_add c.generation 1) now) e, ground arith)
    flushed (ev ∷ events) e = inr (refl, ground arith)

pub flush_due-Flushes :
    (c : WatchCoalescer) (at now : ℕ)
    → Flushes c now (left_in c (flushes_due at now)) (flush_due c at now).1
unfolding flush_due flush_pending left_in
flush_due-Flushes c at now = ground arith

flush_pending-Sound :
    (history : List JournalEntry) (c : WatchCoalescer) (now : ℕ)
    → Sound history c
    → Sound
        (history ++ changes (saturating_add c.generation 1) now c.pending)
        (flush_pending c false now).1
unfolding flush_pending
flush_pending-Sound history c now v =
    let g = saturating_add c.generation 1 in
    let (journal, current) =
      record_all-Inv history c.journal g now c.pending (omega (arith, v.current, v.valid.in_range))
        v.journal in
    record { valid = ground (arith, v.valid); journal = journal; current = current }

Flushes-Sound :
    (history gone : List JournalEntry) (c after : WatchCoalescer) (now : ℕ)
    → Sound history c
    → Flushes c now gone after
    → Sound (history ++ gone) after
Flushes-Sound history gone c after now v (inl (nothing, same)) =
    subst₂ Sound (sym (ap (◌++◌ history) nothing ∙ append-nil history)) (sym same) v
Flushes-Sound history gone c after now v (inr (all, same)) =
    subst₂ Sound (sym (ap (◌++◌ history) all)) (sym same) (flush_pending-Sound history c now v)

changes-le :
    (g now : ℕ) (events : List WatchEvent) → All (λ e. e.generation ≤ g) (changes g now events)
changes-le g now [] = tt
changes-le g now (ev ∷ events) = (omega arith, changes-le g now events)

ingest-Sound :
    (history : List JournalEntry) (c : WatchCoalescer) (now : ℕ) (events : List WatchEvent)
    → Sound history c
    → Sound (history ++ left_in c (ingests now events)) (ingest c now events)
unfolding left_in
ingest-Sound history c now events v =
    elim (Bool-cases (leb (length c.pending + length events) c.overflow_limit)) [
      | inl room ↦
          let (pending, generation, journal, last) = ingest_fits c now events (ground arith) in
          rw (room, append-nil)
            (record {
              valid = ingest-IsValid c now events v.valid;
              journal = rw journal v.journal;
              current = rw (journal, generation) v.current;
            })
      | inr full ↦
          let after = ingest_overflows c now events v.valid (ground arith) in
          rw full (record {
            valid = ingest-IsValid c now events v.valid;
            journal = rw (ap (λ (d : WatchCoalescer). d.journal) after) (
                overflow-Inv history (changes g now (c.pending ++ events)) c.journal g
                  (omega (arith, v.current, v.valid.in_range))
                  (changes-le g now (c.pending ++ events)) v.journal);
            current =
                rw
                  (
                    ap (λ (d : WatchCoalescer). d.journal) after,
                    ap (λ (d : WatchCoalescer). d.generation) after,
                  )
                  (unfold mark_overflow in omega arith);
          })
    ]
  where
    g : ℕ
    g = saturating_add c.generation 1

pub step-Sound :
    (history : List JournalEntry) (c : WatchCoalescer) (call : Call)
    → Sound history c
    → Sound (history ++ left_in c call) (step c call)
unfolding step
step-Sound history c (ingests now events) v = ingest-Sound history c now events v
step-Sound history c (flushes_now now) v =
    Flushes-Sound history _ c _ now v (flush_now-Flushes c now)
step-Sound history c (flushes_due at now) v =
    Flushes-Sound history _ c _ now v (flush_due-Flushes c at now)

run-Sound :
    (history : List JournalEntry) (c : WatchCoalescer) (calls : List Call)
    → Sound history c
    → Sound (history ++ left c calls) (run c calls)
unfolding run left
run-Sound history c [] v = rw append-nil v
run-Sound history c (call ∷ calls) v =
    rw (← append_assoc history (left_in c call) (left (step c call) calls))
      (run-Sound (history ++ left_in c call) (step c call) calls (step-Sound history c call v))

pub with_limits-Sound : (w o f : ℕ) → Sound [] (with_limits w o f)
unfolding with_limits
with_limits-Sound w o f = record {
  valid = with_limits-IsValid w o f;
  journal = new_journal-Inv f;
  current = omega arith;
}

-- After any calls of a new coalescer, an answer of FilesSince by a generation that is not marked
-- truncated names the path of every event that stopped waiting under a later generation: by a
-- flush, or by an overflow, which may have dropped it.
pub files_since_complete :
    (w o f : ℕ) (calls : List Call) (g : ℕ) (e : JournalEntry)
    → In e (left (with_limits w o f) calls)
    → g < e.generation
    → (files_since_query (run (with_limits w o f) calls) (some (since_generation g))).truncated
      ≡ false
    → In e.path
        (files_since_query (run (with_limits w o f) calls) (some (since_generation g))).paths
unfolding files_since_query
files_since_complete w o f calls g e m after whole =
    query_complete (left (with_limits w o f) calls) (run (with_limits w o f) calls).journal g e
      (run-Sound [] (with_limits w o f) calls (with_limits-Sound w o f)).journal whole m after
