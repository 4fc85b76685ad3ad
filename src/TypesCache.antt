-- ===== src/TypesCache.antt =====
-- progressive-lsp-types-cache: keys and entries (key.rs), the relation graph (graph.rs), the store
-- (store.rs) and the generation port (port.rs).
pub mod Serve
pub mod Generation
pub mod Store
pub mod Worker
mod Examples
use progressive_lsp.Base.{
  ℕ, zero, suc, ◌≡◌, refl, Bool, true, false, ◌&&◌, ◌||◌, not, List, [], ◌∷◌, ◌++◌, Option, none,
  some, Text, text_eq, nat_eq, list_eq, PartialEq, pair_eq, eq_by, leb, ltb, if◌then◌else◌, ◌==◌,
  keep, contains,
}
use progressive_lsp.Base.Map.{Map, get, insert, remove}
use progressive_lsp.Resolve.{
  Position, QueryKind, definition, references, type_definition, implementation, hover,
  document_symbol, workspace_symbol, LspLocation, ResolveResult,
}
use progressive_lsp.Index.{IndexService, generation_of}

pub record TypesCacheKey : Type 0 where
  pub kind : QueryKind
  pub file : Text
  pub position : Position
  pub generation : ℕ
  pub pkg : Option Text

abbrev pub new_key : QueryKind → Text → Position → ℕ → TypesCacheKey
new_key kind file position generation = record {
  kind = kind;
  file = file;
  position = position;
  generation = generation;
  pkg = none;
}

pub data CacheEntrySource : Type 0 where
  engine promoted : CacheEntrySource

pub record TypesCacheEntry : Type 0 where
  pub result : ResolveResult
  pub filled_at_unix_ms : ℕ
  pub source : CacheEntrySource
  pub engine_generation : ℕ

-- The derived `PartialEq` of the key and of its parts.
abbrev pub kind_number : QueryKind → ℕ
kind_number definition = 0
kind_number references = 1
kind_number type_definition = 2
kind_number implementation = 3
kind_number hover = 4
kind_number document_symbol = 5
kind_number workspace_symbol = 6

abbrev pub kind_of_number : ℕ → QueryKind
kind_of_number zero = definition
kind_of_number (suc zero) = references
kind_of_number (suc (suc zero)) = type_definition
kind_of_number (suc (suc (suc zero))) = implementation
kind_of_number (suc (suc (suc (suc zero)))) = hover
kind_of_number (suc (suc (suc (suc (suc zero))))) = document_symbol
kind_of_number _ = workspace_symbol

pub kind-kind_number : (k : QueryKind) → kind_of_number (kind_number k) ≡ k
kind-kind_number definition = refl
kind-kind_number references = refl
kind-kind_number type_definition = refl
kind-kind_number implementation = refl
kind-kind_number hover = refl
kind-kind_number document_symbol = refl
kind-kind_number workspace_symbol = refl

instance abbrev pub kind_eq : PartialEq QueryKind
kind_eq = eq_by kind_number kind_of_number kind-kind_number

instance abbrev pub position_eq : PartialEq Position
position_eq =
    eq_by {B = ℕ × ℕ} (λ p. (p.line, p.character)) (λ p. record { line = p.0; character = p.1 })
      (λ p. refl)

abbrev pub option_list : Option Text → List Text
option_list none = []
option_list (some a) = a ∷ []

abbrev pub list_option : List Text → Option Text
list_option [] = none
list_option (a ∷ rest) = some a

pub list-option_list : (o : Option Text) → list_option (option_list o) ≡ o
list-option_list none = refl
list-option_list (some a) = refl

instance abbrev pub package_eq : PartialEq (Option Text)
package_eq = eq_by option_list list_option list-option_list

instance abbrev pub key_eq : PartialEq TypesCacheKey
key_eq =
    eq_by
      ⦃b = pair_eq ⦃a = kind_eq⦄
        ⦃b = pair_eq ⦃a = text_eq⦄
          ⦃b = pair_eq ⦃a = position_eq⦄ ⦃b = pair_eq ⦃a = nat_eq⦄ ⦃b = package_eq⦄⦄⦄⦄⦄
      (λ k. (k.kind, (k.file, (k.position, (k.generation, k.pkg)))))
      (λ e. record {
        kind = e.0;
        file = e.1.0;
        position = e.1.1.0;
        generation = e.1.1.1.0;
        pkg = e.1.1.1.1;
      })
      (λ k. refl)

pub record GraphEdge : Type 0 where
  pub kind : QueryKind
  pub from_file : Text
  pub to_uri : Text

instance abbrev pub edge_eq : PartialEq GraphEdge
edge_eq =
    eq_by ⦃b = pair_eq ⦃a = kind_eq⦄ ⦃b = pair_eq ⦃a = text_eq⦄ ⦃b = text_eq⦄⦄⦄
      (λ k. (k.kind, (k.from_file, k.to_uri)))
      (λ e. record { kind = e.0; from_file = e.1.0; to_uri = e.1.1 }) (λ k. refl)

abbrev pub RelationGraph : Type 0
RelationGraph = Map Text (List GraphEdge)

abbrev pub or_empty : Option (List GraphEdge) → List GraphEdge
or_empty none = []
or_empty (some edges) = edges

abbrev pub add_edge : GraphEdge → List GraphEdge → List GraphEdge
add_edge edge slot = if contains slot edge then slot else slot ++ edge ∷ []

unfoldable pub add_edges : QueryKind → Text → List LspLocation → List GraphEdge → List GraphEdge
add_edges kind from_file [] slot = slot
add_edges kind from_file (loc ∷ locations) slot =
    add_edges kind from_file locations
      (add_edge (record { kind = kind; from_file = from_file; to_uri = loc.uri }) slot)

unfoldable pub add_from_locations :
    QueryKind → Text → List LspLocation → RelationGraph → RelationGraph
unfolding add_edges
add_from_locations kind from_file [] graph = graph
add_from_locations kind from_file (loc ∷ locations) graph =
    insert from_file (add_edges kind from_file (loc ∷ locations) (or_empty (get from_file graph)))
      graph

unfoldable pub edges_for : Text → RelationGraph → List GraphEdge
edges_for file graph = or_empty (get file graph)

-- RelationGraph::invalidate_file does not read the generation.
unfoldable pub invalidate_edges : Text → RelationGraph → RelationGraph
invalidate_edges file graph = remove file graph

pub record TypesCacheStore : Type 0 where
  pub entries : Map TypesCacheKey TypesCacheEntry
  pub engine_generation : ℕ
  pub graph : RelationGraph

abbrev pub new_store : TypesCacheStore
new_store = record { entries = []; engine_generation = 0; graph = [] }

unfoldable pub lookup : TypesCacheKey → TypesCacheStore → Option TypesCacheEntry
lookup key store = get key store.entries

unfoldable pub put : TypesCacheKey → TypesCacheEntry → TypesCacheStore → TypesCacheStore
unfolding add_from_locations
put key entry store = record store {
  graph = add_from_locations key.kind key.file entry.result.locations store.graph;
  entries = insert key entry store.entries;
}

abbrev pub survives_bump : ℕ → TypesCacheKey × TypesCacheEntry → Bool
survives_bump engine_gen e = e.1.engine_generation == 0 || leb engine_gen e.1.engine_generation

unfoldable pub bump_engine_generation : ℕ → TypesCacheStore → TypesCacheStore
bump_engine_generation generation store =
    let engine_gen =
      if ltb store.engine_generation generation then generation else store.engine_generation in
    record store {
      engine_generation = engine_gen;
      entries = keep (survives_bump engine_gen) store.entries;
    }

abbrev pub is_current : Text → ℕ → TypesCacheKey → Bool
is_current file current k = if k.file == file then k.generation == current else true

unfoldable pub invalidate_stale_generations : Text → ℕ → TypesCacheStore → TypesCacheStore
unfolding invalidate_edges
invalidate_stale_generations file current store = record store {
  graph = invalidate_edges file store.graph;
  entries = keep (λ e. is_current file current e.0) store.entries;
}

unfoldable pub clear : TypesCacheStore → TypesCacheStore
clear store = record store { entries = [] }

-- IndexGenerationPort
abbrev pub or_generation : Option ℕ → ℕ → ℕ
or_generation none generation = generation
or_generation (some g) generation = g

unfoldable pub file_generation : IndexService → Text → ℕ
unfolding generation_of
file_generation idx file = or_generation (generation_of file idx.dirty) idx.generation
