-- ===== src/Watch/Journal/Complete.antt =====
-- The journal of Watch/Journal.antt against the whole history of what was recorded in it.
use progressive_lsp.Base.{
  ℕ, zero, suc, ◌+◌, ◌-◌, ◌*◌, ◌≤◌, ◌<◌, ◌≡◌, inl, inr, false, List, [], ◌∷◌, ◌++◌, arith, leb,
  Bool-cases, length, drop, take, In, All, In-append, In-append_left, In-append_right, In-drop,
  drop-In, All-append, All-In, drop-eq-cons, length-drop, length-append, text_eq,
}
use progressive_lsp.Watch.Journal.{
  JournalEntry, FilesSinceJournal, new_journal, trim, push, record_change, mark_overflow,
}

-- The entries' generations rise from `lo` and stay at `hi` or below.
abbrev pub Rising : ℕ → ℕ → List JournalEntry → Type 0
Rising lo hi [] = lo ≤ hi
Rising lo hi (e ∷ es) = (lo ≤ e.generation) × Rising e.generation hi es

Rising-le : (lo hi : ℕ) (es : List JournalEntry) → Rising lo hi es → lo ≤ hi
Rising-le lo hi [] r = r
Rising-le lo hi (e ∷ es) r = omega (arith, Rising-le e.generation hi es r.1)

Rising-append :
    (lo hi : ℕ) (es : List JournalEntry) (e : JournalEntry)
    → Rising lo hi es
    → hi ≤ e.generation
    → Rising lo e.generation (es ++ e ∷ [])
Rising-append lo hi [] e r h = (omega arith, omega arith)
Rising-append lo hi (x ∷ es) e r h = (r.0, Rising-append x.generation hi es e r.1 h)

-- What `trim` keeps still rises, from the first kept generation.
Rising-drop :
    (n lo hi : ℕ) (es : List JournalEntry) (x : JournalEntry) (rest : List JournalEntry)
    → Rising lo hi es
    → drop n es ≡ x ∷ rest
    → (lo ≤ x.generation) × Rising x.generation hi rest
Rising-drop zero lo hi [] x rest r d = cc
Rising-drop zero lo hi (y ∷ ys) x rest r d = ground arith
Rising-drop (suc n) lo hi [] x rest r d = cc
Rising-drop (suc n) lo hi (y ∷ ys) x rest r d =
    let (le, rising) = Rising-drop n y.generation hi ys x rest r.1 d in (omega arith, rising)

-- Of a rising list, the entries that `drop` removes stand at the first kept one or below.
taken_below :
    (n lo hi : ℕ) (es : List JournalEntry) (x : JournalEntry) (rest : List JournalEntry)
    → Rising lo hi es
    → drop n es ≡ x ∷ rest
    → (e : JournalEntry) → In e (take n es)
    → e.generation ≤ x.generation
taken_below zero lo hi es x rest r d e m = absurd m
taken_below (suc n) lo hi [] x rest r d e m = absurd m
taken_below (suc n) lo hi (y ∷ ys) x rest r d e (inl same) =
    rw same at (Rising-drop n y.generation hi ys x rest r.1 d).0
taken_below (suc n) lo hi (y ∷ ys) x rest r d e (inr m) =
    taken_below n y.generation hi ys x rest r.1 d e m

-- `history` holds every entry that `record_change` was called with, the trimmed ones too.
pub record Inv (history : List JournalEntry) (j : FilesSinceJournal) : Type 0 where
  pub positive : 1 ≤ j.limit
  pub bounded : length j.entries ≤ j.limit * 4
  pub rising : Rising j.retained_from_generation j.current_generation j.entries
  pub known : All (λ e. e.generation ≤ j.current_generation) history
  pub complete :
      (e : JournalEntry) → In e history → j.retained_from_generation < e.generation → In e j.entries
  pub sound : (e : JournalEntry) → In e j.entries → In e history

pub new_journal-Inv : (limit : ℕ) → Inv [] (new_journal limit)
unfolding new_journal
new_journal-Inv limit = record {
  positive = omega arith;
  bounded = omega arith;
  rising = omega arith;
  known = tt;
  complete = λ e m h. m;
  sound = λ e m. m;
}

-- The invariant but for the bound on the length: between the push and the trim.
record Pushed (history : List JournalEntry) (j : FilesSinceJournal) : Type 0 where
  positive : 1 ≤ j.limit
  bounded : length j.entries ≤ j.limit * 4 + 1
  rising : Rising j.retained_from_generation j.current_generation j.entries
  known : All (λ e. e.generation ≤ j.current_generation) history
  complete :
      (e : JournalEntry) → In e history → j.retained_from_generation < e.generation → In e j.entries
  sound : (e : JournalEntry) → In e j.entries → In e history

generation-push :
    (j : FilesSinceJournal) (e : JournalEntry)
    → j.current_generation ≤ e.generation
    → (push e j).current_generation ≡ e.generation
generation-push j e h = ground arith

All-le_mono :
    (m n : ℕ) (es : List JournalEntry)
    → m ≤ n
    → All (λ e. e.generation ≤ m) es
    → All (λ e. e.generation ≤ n) es
All-le_mono m n [] h a = tt
All-le_mono m n (e ∷ es) h a = (omega arith, All-le_mono m n es h a.1)

push-Pushed :
    (history : List JournalEntry) (j : FilesSinceJournal) (e : JournalEntry)
    → j.current_generation ≤ e.generation
    → Inv history j
    → Pushed (history ++ e ∷ []) (push e j)
push-Pushed history j e h v = record {
  positive = v.positive;
  bounded = omega (arith, length-append j.entries (e ∷ []), v.bounded);
  rising =
      rw (generation-push j e h)
        (Rising-append j.retained_from_generation j.current_generation j.entries e v.rising h);
  known = rw (generation-push j e h) (
      All-append (λ x. x.generation ≤ e.generation) history (e ∷ [])
        (All-le_mono j.current_generation e.generation history h v.known) (omega arith));
  complete = λ x m above. elim (In-append x history (e ∷ []) m) [
    | inl old ↦ In-append_left x j.entries (e ∷ []) (v.complete x old above)
    | inr new ↦ In-append_right x j.entries (e ∷ []) new
  ];
  sound = λ x m. elim (In-append x j.entries (e ∷ []) m) [
    | inl old ↦ In-append_left x history (e ∷ []) (v.sound x old)
    | inr new ↦ In-append_right x history (e ∷ []) new
  ];
}

module _ (history : List JournalEntry) (j : FilesSinceJournal) (v : Pushed history j)
    (long : leb (length j.entries) (j.limit * 4) ≡ false) where
  abbrev dropped : ℕ
  dropped = length j.entries - j.limit * 2

  dropped-lt-length : dropped < length j.entries
  dropped-lt-length = ground (arith, v.positive)

  -- The trim past the threshold, at the first entry that it keeps.
  trim_long-Inv :
      (x : JournalEntry) (rest : List JournalEntry)
      → drop dropped j.entries ≡ x ∷ rest
      → Inv history
          (record j { retained_from_generation = x.generation; entries = drop dropped j.entries })
  trim_long-Inv x rest d = record {
    positive = v.positive;
    bounded = omega (arith, length-drop dropped j.entries, v.positive, v.bounded);
    rising = rw d (omega arith, kept.1);
    known = v.known;
    complete = λ e m above.
        elim (In-drop dropped e j.entries (v.complete e m (omega (arith, kept.0)))) [
          | inl gone ↦
              absurd (omega (arith, taken_below dropped _ _ j.entries x rest v.rising d e gone))
          | inr stays ↦ stays
        ];
    sound = λ e m. v.sound e (drop-In dropped e j.entries m);
  }
    where
      kept :
          (j.retained_from_generation ≤ x.generation)
          × Rising x.generation j.current_generation rest
      kept = Rising-drop dropped _ _ j.entries x rest v.rising d

trim-Inv :
    (history : List JournalEntry) (j : FilesSinceJournal) → Pushed history j → Inv history (trim j)
unfolding trim
trim-Inv history j v = elim (Bool-cases (leb (length j.entries) (j.limit * 4))) [
  | inl fits ↦ rw fits (record {
    positive = v.positive;
    bounded = ground arith;
    rising = v.rising;
    known = v.known;
    complete = v.complete;
    sound = v.sound;
  })
  | inr long ↦
      let (x, at, d) =
        drop-eq-cons (length j.entries - j.limit * 2) j.entries
          (dropped-lt-length history j v long) in
      rw (long, at) (trim_long-Inv history j v long x _ d)
]

pub record-Inv :
    (history : List JournalEntry) (j : FilesSinceJournal) (e : JournalEntry)
    → j.current_generation ≤ e.generation
    → Inv history j
    → Inv (history ++ e ∷ []) (record_change j e.path e.generation e.unix_ms)
unfolding record_change
record-Inv history j e h v = trim-Inv (history ++ e ∷ []) (push e j) (push-Pushed history j e h v)

pub generation-record :
    (j : FilesSinceJournal) (e : JournalEntry)
    → j.current_generation ≤ e.generation
    → (record_change j e.path e.generation e.unix_ms).current_generation ≡ e.generation
unfolding record_change
generation-record j e h = ground arith

-- An overflow at `g` may lose changes of generations up to `g`.
pub overflow-Inv :
    (history lost : List JournalEntry) (j : FilesSinceJournal) (g : ℕ)
    → j.current_generation ≤ g
    → All (λ e. e.generation ≤ g) lost
    → Inv history j
    → Inv (history ++ lost) (mark_overflow j g)
unfolding mark_overflow
overflow-Inv history lost j g h low v = record {
  positive = v.positive;
  bounded = omega arith;
  rising = omega arith;
  known = all_known;
  complete = λ e m above.
      absurd (omega (arith, All-In (λ x. x.generation ≤ g) e (history ++ lost) all_known m));
  sound = λ e m. absurd m;
}
  where
    all_known : All (λ e. e.generation ≤ g) (history ++ lost)
    all_known =
        All-append (λ e. e.generation ≤ g) history lost
          (All-le_mono j.current_generation g history h v.known) low
