-- ===== src/Watch/Journal.antt =====
-- progressive-lsp-watch/src/journal.rs: the bounded list of changed paths behind FilesSince, with
-- the entries in the order in which they were pushed. `limit * 4` is taken not to pass `usize::MAX`.
pub mod Complete
pub mod Runs
pub mod Answers
pub mod Loss
use progressive_lsp.Base.{
  ℕ, zero, suc, ◌+◌, ◌-◌, ◌*◌, ◌≡◌, Bool, true, false, ◌||◌, ◌&&◌, List, [], ◌∷◌, ◌++◌, map, Text,
  Option, none, some, if◌then◌else◌, ◌==◌, text_eq, ltb, leb, max, length, take, drop, get_elem?,
  keep, contains,
}

pub data FilesSinceQuery : Type 0 where
  since_generation since_unix_ms : ℕ → FilesSinceQuery

pub record WatchOverflow : Type 0 where
  pub generation : ℕ

pub record FilesSinceAnswer : Type 0 where
  pub paths : List Text
  pub truncated : Bool
  pub generation : ℕ
  pub overflow : Option WatchOverflow

pub record JournalEntry : Type 0 where
  pub path : Text
  pub generation : ℕ
  pub unix_ms : ℕ

pub record FilesSinceJournal : Type 0 where
  pub entries : List JournalEntry
  pub current_generation : ℕ
  pub limit : ℕ
  pub overflowed : Bool
  pub retained_from_generation : ℕ

unfoldable pub new_journal : ℕ → FilesSinceJournal
new_journal limit = record {
  entries = [];
  current_generation = 0;
  limit = max limit 1;
  overflowed = false;
  retained_from_generation = 0;
}

abbrev pub generation_at : Option JournalEntry → ℕ → ℕ
generation_at none old = old
generation_at (some first_kept) old = first_kept.generation

unfoldable pub trim : FilesSinceJournal → FilesSinceJournal
trim j =
    let dropped = length j.entries - j.limit * 2 in
    if leb (length j.entries) (j.limit * 4) then j else record j {
      retained_from_generation =
          generation_at (get_elem? j.entries dropped) j.retained_from_generation;
      entries = drop dropped j.entries;
    }

-- The push and the new generation, before the trim.
abbrev pub push : JournalEntry → FilesSinceJournal → FilesSinceJournal
push e j = record j {
  entries = j.entries ++ e ∷ [];
  current_generation =
      if ltb j.current_generation e.generation then e.generation else j.current_generation;
}

unfoldable pub record_change : FilesSinceJournal → Text → ℕ → ℕ → FilesSinceJournal
unfolding trim
record_change j path generation unix_ms =
    trim (push (record { path = path; generation = generation; unix_ms = unix_ms }) j)

unfoldable pub mark_overflow : FilesSinceJournal → ℕ → FilesSinceJournal
mark_overflow j g = record j {
  overflowed = true;
  current_generation = g;
  retained_from_generation = g;
  entries = [];
}

-- The filter of a query, and the entries that it lets through.
abbrev pub selects : Option FilesSinceQuery → JournalEntry → Bool
selects none e = true
selects (some (since_generation g)) e = ltb g e.generation
selects (some (since_unix_ms ms)) e = ltb ms e.unix_ms

unfoldable pub matched : FilesSinceJournal → Option FilesSinceQuery → List JournalEntry
matched j q = keep (selects q) j.entries

unfoldable pub gap : FilesSinceJournal → Option FilesSinceQuery → Bool
gap j none = false
gap j (some (since_generation g)) =
    ltb g j.retained_from_generation || (j.overflowed && ltb g j.current_generation)
gap j (some (since_unix_ms ms)) = j.overflowed

-- The loop over the matches that pushes each path not seen before.
unfoldable pub distinct_paths : List Text → List JournalEntry → List Text
distinct_paths paths [] = paths
distinct_paths paths (e ∷ es) =
    distinct_paths (if contains paths e.path then paths else paths ++ e.path ∷ []) es

unfoldable pub query : FilesSinceJournal → Option FilesSinceQuery → FilesSinceAnswer
unfolding matched gap distinct_paths
query j q =
    let paths = distinct_paths [] (matched j q) in
    record {
      paths = if ltb j.limit (length paths) then take j.limit paths else paths;
      truncated = gap j q || ltb j.limit (length paths);
      generation = j.current_generation;
      overflow = if gap j q then some (record { generation = j.current_generation }) else none;
    }
