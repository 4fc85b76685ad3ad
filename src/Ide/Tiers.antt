-- ===== src/Ide/Tiers.antt =====
-- poc-ide/src/tier.rs: what the editor knows of the tiers of the packages, and the strip of three cells
-- that it paints of it. The catalog of languages is an argument.
pub mod Strip
pub mod Packages
mod Examples
use progressive_lsp.Base.{
  ℕ, List, [], ◌∷◌, Bool, true, false, not, ◌&&◌, ◌||◌, Option, none, some, Text, text_eq, nat_eq,
  codes, if◌then◌else◌, ltb, leb, ◌==◌, length,
}
use progressive_lsp.Base.Map
use progressive_lsp.Base.Map.{Map}
use progressive_lsp.Base.OrdMap
use progressive_lsp.Base.Texts.{contains_text}
use progressive_lsp.Base.Utf8.{as_bytes}

pub data WireTier : Type 0 where
  syntax graph types : WireTier

abbrev pub rank : WireTier → ℕ
rank syntax = 1
rank graph = 2
rank types = 3

abbrev pub meets : WireTier → WireTier → Bool
meets tier least = leb (rank least) (rank tier)

abbrev pub parse_tier : Text → Option WireTier
parse_tier s =
    if s == codes "syntax"
    then some syntax
    else if s == codes "graph"
    then some graph
    else if s == codes "types"
    then some types
    else none

pub data IngestState : Type 0 where
  not_started running done : IngestState

abbrev pub parse_ingest : Text → IngestState
parse_ingest s =
    if s == codes "running" then running else if s == codes "done" then done else not_started

abbrev pub is_done : IngestState → Bool
is_done done = true
is_done ingest = false

abbrev pub is_running : IngestState → Bool
is_running running = true
is_running ingest = false

pub data TierCellState : Type 0 where
  in_progress finished failed not_supported skipped na : TierCellState

pub record EngineSnap : Type 0 where
  pub state : Text
  pub detail : Text

abbrev pub is_blocked : EngineSnap → Bool
is_blocked engine = engine.state == codes "error" || engine.state == codes "missing"

-- `is_some_and`
abbrev pub is_some_and {ℓ} : {A : Type ℓ} → (A → Bool) → Option A → Bool
is_some_and p none = false
is_some_and p (some a) = p a

abbrev pub reaches : WireTier → Option WireTier → Bool
reaches least current = is_some_and (λ t. meets t least) current

unfoldable pub t1_state : IngestState → Option WireTier → Bool → TierCellState
t1_state ingest current known =
    if reaches syntax current || is_done ingest
    then finished
    else if known || is_running ingest
    then in_progress
    else na

unfoldable pub workspace_t2 : IngestState → TierCellState
workspace_t2 ingest =
    if is_done ingest then finished else if is_running ingest then in_progress else na

pub record Catalog : Type 0 where
  pub is_known : Text → Bool
  pub has_t2 : Text → Bool
  pub t3_supported : Text → Bool

pub record TierStrip : Type 0 where
  pub t1 : TierCellState
  pub t2 : TierCellState
  pub t3 : TierCellState

module _ (catalog : Catalog) where
  open catalog use {is_known, has_t2, t3_supported}

  unfoldable pub t2_state : Text → IngestState → Option WireTier → TierCellState
  t2_state lang ingest current =
      if not (has_t2 lang)
      then na
      else if reaches graph current || is_done ingest
      then finished
      else if is_running ingest || reaches syntax current
      then in_progress
      else na

  unfoldable pub t3_state :
      Text → IngestState → Option WireTier → Bool → Option EngineSnap → TierCellState
  t3_state lang ingest current offered engine =
      let prior_ready = if has_t2 lang then reaches graph current else reaches syntax current in
      if not (t3_supported lang)
      then not_supported
      else if not offered
      then skipped
      else if reaches types current
      then finished
      else if prior_ready
      then (if is_some_and is_blocked engine then failed else in_progress)
      else if is_done ingest
      then (if is_some_and (λ e. not (is_blocked e)) engine then in_progress else skipped)
      else if is_running ingest
      then in_progress
      else na

  -- `paint_for_open`; `offered` is whether the host offers the third tier.
  unfoldable pub paint_for_open :
      Text → IngestState → Option WireTier → Bool → Option EngineSnap → TierStrip
  unfolding t1_state t2_state t3_state workspace_t2
  paint_for_open lang ingest current offered engine =
      if is_known lang
      then record {
        t1 = t1_state ingest current true;
        t2 = t2_state lang ingest current;
        t3 = t3_state lang ingest current offered engine;
      }
      else record {
        t1 = t1_state ingest current (is_running ingest || is_done ingest);
        t2 = workspace_t2 ingest;
        t3 = na;
      }

pub record PackageTierMap : Type 0 where
  pub ingest : IngestState
  pub packages : Map Text WireTier
  pub engines : Map Text EngineSnap

abbrev pub new_tiers : PackageTierMap
new_tiers = record { ingest = not_started; packages = []; engines = [] }

-- `entry(…).or_insert(Syntax)`
abbrev pub add_packages : List Text → Map Text WireTier → Map Text WireTier
add_packages [] packages = packages
add_packages (id ∷ ids) packages =
    add_packages ids
      (if Map.contains_key id packages then packages else OrdMap.insert id syntax packages)

abbrev pub add_engines : List (Text × EngineSnap) → Map Text EngineSnap → Map Text EngineSnap
add_engines [] engines = engines
add_engines ((lang, snap) ∷ rows) engines = add_engines rows (OrdMap.insert lang snap engines)

-- Of the response the name of the state, the ids of the packages, and the rows of the engines.
unfoldable pub apply_index_status :
    Text → List Text → List (Text × EngineSnap) → PackageTierMap → PackageTierMap
apply_index_status state ids rows m = record {
  ingest = parse_ingest state;
  packages = add_packages ids m.packages;
  engines = add_engines rows m.engines;
}

unfoldable pub apply_tier_ready : Text → Text → PackageTierMap → PackageTierMap
apply_tier_ready id tier m = elim (parse_tier tier) [
  | none ↦ m
  | some t ↦ record m { packages = OrdMap.insert id t m.packages }
]

unfoldable pub apply_tier_status : List (Text × Text) → PackageTierMap → PackageTierMap
unfolding apply_tier_ready
apply_tier_status [] m = m
apply_tier_status ((id, tier) ∷ rows) m = apply_tier_status rows (apply_tier_ready id tier m)

-- `max`: of equal tiers there is no telling which.
abbrev pub highest : Option WireTier → Map Text WireTier → Option WireTier
highest best [] = best
highest best ((id, t) ∷ packages) =
    highest (if is_some_and (λ b. ltb (rank t) (rank b)) best then best else some t) packages

abbrev pub aggregate : PackageTierMap → Option WireTier
aggregate m = highest none m.packages

abbrev pub is_in : Text → Text → Bool
is_in s id = not (id == []) && contains_text s id

-- `len()` counts bytes.
abbrev pub size : Text → ℕ
size s = length (as_bytes s)

abbrev pub is_longer : Text → Option (Text × WireTier) → Bool
is_longer id none = true
is_longer id (some (b, t)) = ltb (size b) (size id)

-- The loop of `tier_for_path`, with the best package so far.
abbrev pub longest_in :
    Text → Option (Text × WireTier) → Map Text WireTier → Option (Text × WireTier)
longest_in s best [] = best
longest_in s best ((id, t) ∷ packages) =
    longest_in s (if is_in s id && is_longer id best then some (id, t) else best) packages

unfoldable pub tier_for_path : Text → PackageTierMap → Option WireTier
tier_for_path s m = elim (longest_in s none m.packages) [
  | none ↦ aggregate m
  | some (id, t) ↦ some t
]
