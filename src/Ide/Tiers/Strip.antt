-- ===== src/Ide/Tiers/Strip.antt =====
-- How the cells of the strip go together (poc-ide/src/tier.rs).
use progressive_lsp.Base.{
  ◌≡◌, ◌⊎◌, inl, inr, refl, Bool-cases, ◌||◌, Bool, true, Option, none, some, arith, Text,
}
use progressive_lsp.Ide.Tiers.{
  WireTier, syntax, graph, types, IngestState, not_started, running, done, finished, na, failed,
  EngineSnap, Catalog, is_done, is_running, t1_state, t2_state, t3_state, workspace_t2,
  paint_for_open,
}

workspace_t2-t1 :
    (ingest : IngestState) (current : Option WireTier) (known : Bool)
    → workspace_t2 ingest ≡ finished
    → t1_state ingest current known ≡ finished
unfolding workspace_t2 t1_state
workspace_t2-t1 ingest current known h = ground (arith, h)

module _ (catalog : Catalog) (lang : Text) where
  t2-t1 :
      (ingest : IngestState) (current : Option WireTier) (known : Bool)
      → t2_state catalog lang ingest current ≡ finished
      → t1_state ingest current known ≡ finished
  unfolding t2_state t1_state
  t2-t1 not_started none known h = ground (arith, h)
  t2-t1 running none known h = ground (arith, h)
  t2-t1 done none known h = refl
  t2-t1 ingest (some syntax) known h = refl
  t2-t1 ingest (some graph) known h = refl
  t2-t1 ingest (some types) known h = refl

  -- The cells before a third tier that is finished or has failed.
  t3-t1 :
      (ingest : IngestState) (current : Option WireTier) (offered known : Bool)
      (engine : Option EngineSnap)
      → (t3_state catalog lang ingest current offered engine ≡ finished)
        ⊎ (t3_state catalog lang ingest current offered engine ≡ failed)
      → (t1_state ingest current known ≡ finished)
        × ((t2_state catalog lang ingest current ≡ finished)
            ⊎ (t2_state catalog lang ingest current ≡ na))
  unfolding t3_state t2_state t1_state
  t3-t1 not_started none offered known engine h = absurd (ground (arith, h))
  t3-t1 running none offered known engine h = absurd (ground (arith, h))
  t3-t1 done none offered known engine h = absurd (ground (arith, h))
  t3-t1 ingest (some syntax) offered known engine h = (refl, ground (arith, h))
  t3-t1 ingest (some graph) offered known engine h = (refl, ground (arith, h))
  t3-t1 ingest (some types) offered known engine h = (refl, ground (arith, h))

paint_for_open-finished :
    (catalog : Catalog) (lang : Text) (ingest : IngestState) (current : Option WireTier)
    (offered : Bool) (engine : Option EngineSnap)
    → (let strip = paint_for_open catalog lang ingest current offered engine in
        (strip.t2 ≡ finished → strip.t1 ≡ finished)
        × ((strip.t3 ≡ finished) ⊎ (strip.t3 ≡ failed)
            → (strip.t1 ≡ finished) × ((strip.t2 ≡ finished) ⊎ (strip.t2 ≡ na))))
unfolding paint_for_open
paint_for_open-finished catalog lang ingest current offered engine =
    elim (Bool-cases (catalog.is_known lang)) [
      | inl known ↦ rw known (
        t2-t1 catalog lang ingest current true,
        t3-t1 catalog lang ingest current offered true engine,
      )
      | inr unknown ↦ rw unknown (
        workspace_t2-t1 ingest current (is_running ingest || is_done ingest),
        λ h. absurd (ground (arith, h)),
      )
    ]
