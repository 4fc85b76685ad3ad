-- ===== src/Watch/Journal/Loss.antt =====
-- A FilesSince query by time after a trim (progressive-lsp-watch/src/journal.rs): `query` looks for
-- a gap only in the queries by generation, and `trim` drops changes that a time still selects.
use progressive_lsp.Base.{
  ℕ, suc, ◌-◌, ◌*◌, ◌≤◌, ◌<◌, ◌≡◌, ◌≢◌, refl, ◌⊎◌, inl, inr, true, false, List, [], ◌∷◌, ◌++◌, Text,
  some, arith, leb, length, drop, All, All-append, All-keep, All-drop, contains, text_eq, ==_iff,
  ==_refl, length-append,
}
use progressive_lsp.Watch.Journal.{
  JournalEntry, FilesSinceJournal, since_unix_ms, record_change, selects, matched, distinct_paths,
  query,
}

abbrev pub AllAt : Text → List JournalEntry → Type 0
AllAt p = All (λ e. e.path ≡ p)

distinct_paths-again :
    (p : Text) (es : List JournalEntry) → AllAt p es → distinct_paths (p ∷ []) es ≡ p ∷ []
unfolding distinct_paths
distinct_paths-again p [] a = refl
distinct_paths-again p (e ∷ es) a = rw (a.0, ==_refl p) (distinct_paths-again p es a.1)

distinct_paths-AllAt :
    (p : Text) (es : List JournalEntry)
    → AllAt p es
    → (distinct_paths [] es ≡ []) ⊎ (distinct_paths [] es ≡ p ∷ [])
unfolding distinct_paths
distinct_paths-AllAt p [] a = inl refl
distinct_paths-AllAt p (e ∷ es) a = inr (rw a.0 (distinct_paths-again p es a.1))

-- A journal that did not overflow answers a query by time with no gap.
answer_at :
    (j : FilesSinceJournal) (p q : Text) (ms : ℕ)
    → AllAt p j.entries
    → 1 ≤ j.limit
    → j.overflowed ≡ false
    → q ≢ p
    → ((query j (some (since_unix_ms ms))).truncated ≡ false)
      × (contains (query j (some (since_unix_ms ms))).paths q ≡ false)
unfolding query
answer_at j p q ms a pos calm other =
    elim (distinct_paths-AllAt p (matched j (some (since_unix_ms ms)))
      (All-keep (λ e. e.path ≡ p) (selects (some (since_unix_ms ms))) j.entries a)) [
        | inl e ↦ rw e (ground arith)
        | inr e ↦ rw e (ground (arith, ==_iff p q))
      ]

-- The trim of a full journal leaves only the path that was recorded last.
record_full :
    (j : FilesSinceJournal) (e : JournalEntry) (rest : List JournalEntry) (p : Text) (g now : ℕ)
    → 1 ≤ j.limit
    → j.entries ≡ e ∷ rest
    → length j.entries ≡ j.limit * 4
    → AllAt p rest
    → AllAt p (record_change j p g now).entries
unfolding record_change
record_full j e rest p g now pos full len a = rw (sizes.0, sizes.1, full) later
  where
    x : JournalEntry
    x = record { path = p; generation = g; unix_ms = now }

    sizes :
        (leb (length (j.entries ++ x ∷ [])) (j.limit * 4) ≡ false)
        × (length (j.entries ++ x ∷ []) - j.limit * 2 ≡ suc (j.limit * 2))
    sizes = ground (arith, length-append j.entries (x ∷ []))

    later : AllAt p (drop (j.limit * 2) (rest ++ x ∷ []))
    later =
        All-drop (λ y. y.path ≡ p) (j.limit * 2) (rest ++ x ∷ [])
          (All-append (λ y. y.path ≡ p) rest (x ∷ []) a (refl, tt))

record_limits :
    (j : FilesSinceJournal) (p : Text) (g now : ℕ)
    → ((record_change j p g now).limit ≡ j.limit)
      × ((record_change j p g now).overflowed ≡ j.overflowed)
unfolding record_change
record_limits j p g now = ground arith

-- In a journal that has not overflowed and holds a change followed by changes of one other path
-- up to four times its limit, recording the other path once more drops the change; an answer by a
-- time before the change, which selects it, is then not truncated and does not name its path.
query_since_unix_ms-loses :
    (j : FilesSinceJournal) (e : JournalEntry) (rest : List JournalEntry) (p : Text)
    (g now since : ℕ)
    → 1 ≤ j.limit
    → j.overflowed ≡ false
    → j.entries ≡ e ∷ rest
    → length j.entries ≡ j.limit * 4
    → AllAt p rest
    → e.path ≢ p
    → since < e.unix_ms
    → (selects (some (since_unix_ms since)) e ≡ true)
      × ((query (record_change j p g now) (some (since_unix_ms since))).truncated ≡ false)
      × (contains (query (record_change j p g now) (some (since_unix_ms since))).paths e.path
          ≡ false)
query_since_unix_ms-loses j e rest p g now since pos calm full len a other before =
    let (limit, overflowed) = record_limits j p g now in
    let (whole, missing) =
      answer_at (record_change j p g now) p e.path since
        (record_full j e rest p g now pos full len a) (rw limit pos) (rw overflowed calm) other in
    (ground arith, whole, missing)
