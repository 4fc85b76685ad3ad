-- ===== src/Ide/Tiers/Examples.antt =====
-- Two packages, one in the other (poc-ide/src/tier.rs).
use progressive_lsp.Base.{[], ◌∷◌, codes}
use progressive_lsp.Ide.Tiers.{graph, types, done, PackageTierMap, tier_for_path}
use progressive_lsp.Ide.Tiers.Packages.{IsTierFor, tier_for_path-IsTierFor}

abbrev two : PackageTierMap
two = record {
  ingest = done;
  packages = (codes "app", graph) ∷ (codes "app/src", types) ∷ [];
  engines = [];
}

tier_for_path-IsTierFor_example :
    IsTierFor (codes "/w/app/src/a.rs") two (tier_for_path (codes "/w/app/src/a.rs") two)
tier_for_path-IsTierFor_example = tier_for_path-IsTierFor (codes "/w/app/src/a.rs") two
