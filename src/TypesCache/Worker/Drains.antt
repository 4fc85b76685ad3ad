-- ===== src/TypesCache/Worker/Drains.antt =====
-- What a drain of the queue stores (progressive-lsp-types-cache/src/engine_builder.rs).
use progressive_lsp.Base.{
  ℕ, ◌≡◌, ◌↔◌, refl, sym, ap, subst, ◌∙◌, ◌⊎◌, inl, inr, Bool, true, false, not, List, [], ◌∷◌,
  Option, none, some, Text, text_eq, arith, if◌then◌else◌, ◌==◌, ==_iff, In,
}
use progressive_lsp.Base.Map.{get, get-insert}
use progressive_lsp.Resolve.{ResolveResult}
use progressive_lsp.Engine.Supervisor.{SupervisorState, Supervisor}
use progressive_lsp.Engine.Supervisor.Health.{poll_health, is_ready}
use progressive_lsp.Engine.Supervisor.Resolve.{targets, first_answer, resolve}
use progressive_lsp.TypesCache.{
  TypesCacheKey, TypesCacheEntry, key_eq, kind_eq, position_eq, lookup, put,
}
use progressive_lsp.TypesCache.Generation.{live_generation, file_generation-eq_live}
use progressive_lsp.TypesCache.Worker.{
  WorkerState, WorkerCtx, current_key, store_answer, asked, after_asking, ask, is_inflight,
  drain_one, drain_queue,
}

module _ {A : Type 0} where
  chosen :
      (o rest : Option A) (a : A)
      → elim o as (λ _. Option A) [ none ↦ rest | some b ↦ some b ] ≡ some a
      → (o ≡ some a) ⊎ (rest ≡ some a)
  chosen none rest a h = inr h
  chosen (some b) rest a h = inl h

  first_answer-some :
      (answers : Text → Option A) (packs : List Text) (a : A)
      → first_answer answers packs ≡ some a
      → (pack : Text) × (answers pack ≡ some a)
  unfolding first_answer
  first_answer-some answers [] a h = cc
  first_answer-some answers (pack ∷ packs) a h =
      elim (chosen (answers pack) (first_answer answers packs) a h) [
        | inl here ↦ (pack, here)
        | inr later ↦ first_answer-some answers packs a later
      ]

  when_ready :
      (ready : Bool) (o : Option A) (st st' : SupervisorState) (a : A)
      → (if◌then◌else◌ {A = Option A × SupervisorState} ready (o, st) (none, st')).0 ≡ some a
      → o ≡ some a
  when_ready true o st st' a h = h
  when_ready false o st st' a h = cc

  resolve-some :
      (sup : Supervisor) (now : ℕ) (language pkg : Text) (answers : Text → Option A)
      (st : SupervisorState) (a : A)
      → (resolve sup now language pkg answers st).0 ≡ some a
      → (pack : Text) × (answers pack ≡ some a)
  unfolding resolve
  resolve-some sup now language pkg answers st a h =
      let polled = is_ready sup now language pkg (poll_health sup now st) in
      first_answer-some answers (targets sup language polled.1.children) a (
        when_ready polled.0 (first_answer answers (targets sup language polled.1.children)) polled.1
          polled.1 a h)

-- An entry that came from a child, for the file's generation at the drain.
abbrev pub IsAnswered : WorkerCtx → TypesCacheKey → TypesCacheKey → TypesCacheEntry → Type 0
IsAnswered ctx key k entry =
    (ctx.is_open key.file ≡ true)
    × (k ≡ record key { generation = live_generation ctx.index key.file })
    × ((pack : Text) × (ctx.answers k pack ≡ some entry.result))

store_answer-lookup :
    (key k : TypesCacheKey) (o : Option ResolveResult) (w : WorkerState) (entry : TypesCacheEntry)
    → lookup k (store_answer key o w).store ≡ some entry
    → (lookup k w.store ≡ some entry) ⊎ ((key ≡ k) × (o ≡ some entry.result))
unfolding lookup put
store_answer-lookup key k none w entry h = inl h
store_answer-lookup key k (some result) w entry h =
    written (key == k) _ (get k w.store.entries) entry
      (sym (get-insert key k _ w.store.entries) ∙ h) (==_iff key k)
  where
    written :
        (same : Bool) (new : TypesCacheEntry) (old : Option TypesCacheEntry) (e : TypesCacheEntry)
        → (if same then some new else old) ≡ some e
        → ((same ≡ true) ↔ (key ≡ k))
        → (old ≡ some e) ⊎ ((key ≡ k) × (some new.result ≡ some e.result))
    written true new old e g iff =
        inr (iff.0 refl, ground (arith, ap (λ (x : TypesCacheEntry). x.result) {x = new} {y = e}))
    written false new old e g iff = inl g

ask-lookup :
    (ctx : WorkerCtx) (key k : TypesCacheKey) (w : WorkerState) (entry : TypesCacheEntry)
    → lookup k (ask ctx key w).store ≡ some entry
    → (lookup k w.store ≡ some entry)
      ⊎ ((k ≡ current_key ctx key) × ((pack : Text) × (ctx.answers k pack ≡ some entry.result)))
unfolding ask
ask-lookup ctx key k w entry h =
    elim (store_answer-lookup (current_key ctx key) k (asked ctx key w).0 (after_asking ctx key w)
      entry h) [
        | inl old ↦ inl old
        | inr (same, answered) ↦
            let (pack, given) =
              resolve-some ctx.engines ctx.now _ _ (ctx.answers (current_key ctx key)) w.supervisor
                entry.result answered in
            inr (
              sym same,
              (
                pack,
                subst (λ (j : TypesCacheKey). ctx.answers j pack ≡ some entry.result) same given,
              ),
            )
      ]

current_key-eq :
    (ctx : WorkerCtx) (key : TypesCacheKey)
    → current_key ctx key ≡ record key { generation = live_generation ctx.index key.file }
current_key-eq ctx key =
    ap (λ (g : ℕ). record key { generation = g }) (file_generation-eq_live ctx.index key.file)

drain_one-lookup :
    (ctx : WorkerCtx) (key k : TypesCacheKey) (w : WorkerState) (entry : TypesCacheEntry)
    → lookup k (drain_one ctx key w).store ≡ some entry
    → (lookup k w.store ≡ some entry) ⊎ IsAnswered ctx key k entry
drain_one-lookup ctx key k w entry h =
    elim (by (ctx.is_open key.file) (is_inflight key w.inflight) h) [
      | inl old ↦ inl old
      | inr (opened, same, answered) ↦ inr (opened, same ∙ current_key-eq ctx key, answered)
    ]
  where
    by :
        (open_file busy : Bool)
        → lookup k (if not open_file then w else if busy then w else ask ctx key w).store
          ≡ some entry
        → (lookup k w.store ≡ some entry)
          ⊎ ((open_file ≡ true)
              × (k ≡ current_key ctx key)
              × ((pack : Text) × (ctx.answers k pack ≡ some entry.result)))
    by false busy g = inl g
    by true true g = inl g
    by true false g = elim (ask-lookup ctx key k w entry g) [
      | inl old ↦ inl old
      | inr (same, answered) ↦ inr (refl, same, answered)
    ]

-- An answer that stands in the store after a drain stood there before, or it is what a child
-- answered to a key of the queue whose file is open, stored under the generation that the file
-- has in the dirty set, or else under the count of the index.
pub drain_queue-lookup :
    (ctx : WorkerCtx) (queue : List TypesCacheKey) (k : TypesCacheKey) (w : WorkerState)
    (entry : TypesCacheEntry)
    → lookup k (drain_queue ctx queue w).store ≡ some entry
    → (lookup k w.store ≡ some entry)
      ⊎ ((key : TypesCacheKey) × In key queue × IsAnswered ctx key k entry)
unfolding drain_queue
drain_queue-lookup ctx [] k w entry h = inl h
drain_queue-lookup ctx (key ∷ queue) k w entry h =
    elim (drain_queue-lookup ctx queue k (drain_one ctx key w) entry h) [
      | inr (later, m, answered) ↦ inr (later, inr m, answered)
      | inl now ↦ elim (drain_one-lookup ctx key k w entry now) [
        | inl old ↦ inl old
        | inr answered ↦ inr (key, inl refl, answered)
      ]
    ]
