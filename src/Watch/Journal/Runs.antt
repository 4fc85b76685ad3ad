-- ===== src/Watch/Journal/Runs.antt =====
-- Sequences of operations on the journal of Watch/Journal.antt, and what they record.
use progressive_lsp.Base.{ℕ, ◌≤◌, List, [], ◌∷◌, ◌++◌, text_eq}
use mathlib.Core.List.{append-nil, append_assoc}
use progressive_lsp.Watch.Journal.{JournalEntry, FilesSinceJournal, record_change, mark_overflow}
use progressive_lsp.Watch.Journal.Complete.{Inv, record-Inv, generation-record, overflow-Inv}

-- What a client of the journal does.
pub data Op : Type 0 where
  records : JournalEntry → Op
  overflows : ℕ → Op

unfoldable pub step : FilesSinceJournal → Op → FilesSinceJournal
step j (records e) = record_change j e.path e.generation e.unix_ms
step j (overflows g) = mark_overflow j g

unfoldable pub run : FilesSinceJournal → List Op → FilesSinceJournal
run j [] = j
run j (op ∷ ops) = run (step j op) ops

-- Every entry that the operations record.
unfoldable pub recorded : List Op → List JournalEntry
recorded [] = []
recorded (records e ∷ ops) = e ∷ recorded ops
recorded (overflows g ∷ ops) = recorded ops

-- The operations' generations do not fall, from `g` on.
abbrev pub Monotone : ℕ → List Op → Type 0
Monotone g [] = Unit
Monotone g (records e ∷ ops) = (g ≤ e.generation) × Monotone e.generation ops
Monotone g (overflows n ∷ ops) = (g ≤ n) × Monotone n ops

pub run-Inv :
    (history : List JournalEntry) (j : FilesSinceJournal) (ops : List Op)
    → Monotone j.current_generation ops
    → Inv history j
    → Inv (history ++ recorded ops) (run j ops)
unfolding run recorded step
run-Inv history j [] mono v = rw append-nil v
run-Inv history j (records e ∷ ops) mono v = rw (← append_assoc history (e ∷ []) (recorded ops)) (
    run-Inv (history ++ e ∷ []) (record_change j e.path e.generation e.unix_ms) ops
      (rw (generation-record j e mono.0) mono.1) (record-Inv history j e mono.0 v))
run-Inv history j (overflows g ∷ ops) mono v =
    run-Inv history (mark_overflow j g) ops (unfold mark_overflow in mono.1)
      (rw append-nil at (overflow-Inv history [] j g mono.0 tt v))
