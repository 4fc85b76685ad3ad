-- ===== src/Index/Marking.antt =====
-- Which paths a batch of the watcher makes dirty (progressive-lsp-index/src/service.rs, dirty.rs, with
-- progressive-lsp-watch/src/filter.rs).
use progressive_lsp.Base.{
  ℕ, ◌≡◌, refl, ap, ◌∙◌, Bool, ◌&&◌, not, List, [], ◌∷◌, Option, none, some, Text, max, ltb, arith,
  if◌then◌else◌, ==_iff, any, keep,
}
use progressive_lsp.Base.Map.{get, get-insert}
use progressive_lsp.Core.Paths.{path_eq, components, same_path}
use progressive_lsp.Watch.{WatchEvent, WatchBatch}
use progressive_lsp.Watch.Filter.{should_drop, default_ignore_filter}
use progressive_lsp.Index.{
  DirtySet, raised, mark, mark_all, IndexService, apply_watch_batch, generation_of,
}

-- The events at a path, however each of them spells it.
abbrev pub is_at : Text → WatchEvent → Bool
is_at path ev = same_path ev.path path

abbrev pub reports : Text → WatchEvent → Bool
reports path ev = not (should_drop ev.path) && is_at path ev

-- The newer of the generation that a path has, if it has one, and that of a batch.
abbrev pub newest : Option ℕ → ℕ → ℕ
newest none g = g
newest (some n) g = max n g

max_again : (n g : ℕ) → max (max n g) g ≡ max n g
max_again n g = omega arith

newest_again : (o : Option ℕ) (g : ℕ) → newest (some (newest o g)) g ≡ newest o g
newest_again none g = omega arith
newest_again (some n) g = max_again n g

max-if : (n g : ℕ) → (if ltb n g then g else n) ≡ max n g
max-if n g = ground arith

raised-eq-newest : (o : Option ℕ) (g : ℕ) → raised o g ≡ newest o g
raised-eq-newest none g = refl
raised-eq-newest (some n) g = max-if n g

mark_all-get :
    (path : Text) (events : List WatchEvent) (g : ℕ) (dirty : DirtySet)
    → get (components path) (mark_all events g dirty) ≡ (
        if any (is_at path) events
        then some (newest (get (components path) dirty) g)
        else get (components path) dirty)
unfolding mark_all mark
mark_all-get path [] g dirty = refl
mark_all-get path (ev ∷ events) g dirty = ground (
  arith,
  mark_all-get path events g (mark ev.path g dirty),
  get-insert (components ev.path) (components path) (raised (get (components ev.path) dirty) g)
      dirty,
  ==_iff (components ev.path) (components path),
  raised-eq-newest (get (components ev.path) dirty) g,
  newest_again (get (components path) dirty) g,
)

any-keep :
    (path : Text) (events : List WatchEvent)
    → any (is_at path) (keep (λ e. not (should_drop e.path)) events) ≡ any (reports path) events
any-keep path [] = refl
any-keep path (ev ∷ events) = ground (arith, any-keep path events)

-- After a batch that passes the default filter, the generation of a path in the dirty set is the
-- greater of the batch's and the one it had, if an event of the batch that the filter does not
-- drop is at this path, compared by the parts of a path; otherwise the path is as dirty as
-- before. The generation of the index is the greater of the batch's and its own.
pub apply_watch_batch-generation_of :
    (batch : WatchBatch) (idx : IndexService) (path : Text)
    → let after = apply_watch_batch batch default_ignore_filter idx in
      (generation_of path after.dirty ≡ (
        if any (λ ev. not (should_drop ev.path) && same_path ev.path path) batch.events
        then some (newest (generation_of path idx.dirty) batch.generation)
        else generation_of path idx.dirty))
      × (after.generation ≡ max idx.generation batch.generation)
unfolding generation_of apply_watch_batch default_ignore_filter
apply_watch_batch-generation_of batch idx path = (
  mark_all-get path (keep (λ (e : WatchEvent). not (should_drop e.path)) batch.events)
        batch.generation idx.dirty
      ∙ ap
          (λ b.
            if b
            then some (newest (get (components path) idx.dirty) batch.generation)
            else get (components path) idx.dirty)
          (any-keep path batch.events),
  max-if idx.generation batch.generation,
)
