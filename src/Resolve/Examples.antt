-- ===== src/Resolve/Examples.antt =====
-- Concrete chains (progressive-lsp-resolve).
use progressive_lsp.Base.{
  Text, true, false, ℕ, ◌≡◌, refl, [], ◌∷◌, ◌++◌, codes, Option, none, some, arith,
}
use progressive_lsp.Resolve.{
  Range, SymbolKind, class, method, is_within, Tier, syntax, graph, types, definition, ResolveQuery,
  new_query, empty_result, ready, not_ready,
}
use progressive_lsp.Resolve.Symbols.{
  IndexedSymbol, to_location, identifier_at, GraphIndex, prefer_imported,
}
use progressive_lsp.Resolve.Syntax.{definition_hits, with_locations, resolve_syntax}
use progressive_lsp.Resolve.Syntax.Locations.{IsBest, resolve_syntax-definition}
use progressive_lsp.Resolve.Heuristic
use progressive_lsp.Resolve.Heuristic.{package_ready_for, lookup, has_arity, resolve_heuristic}
use progressive_lsp.Resolve.Heuristic.Answers.{IsAnswer, resolve_heuristic-IsAnswer}
use progressive_lsp.Resolve.Chain.{Resolver, accept, clamp_result_tier, resolve_with_steps, resolve}
use progressive_lsp.Resolve.Chain.Answers.{AnswersWithin, resolve_with_steps-first, resolve-within}

abbrev query_at : Option Tier → Option ℕ → ResolveQuery
query_at ceiling limit =
    record (new_query (codes "A.java") (record { line = 0; character = 0 }) definition) {
      chain_policy = record { max_chain_iter = limit; max_tier = ceiling };
    }

abbrev absent : Resolver
absent q = not_ready

abbrev at_tier : Tier → Resolver
at_tier tier q = ready (empty_result tier)

resolve_with_steps-first_example :
    resolve_with_steps
      (absent ∷ at_tier types ∷ [] ++ at_tier graph ∷ at_tier syntax ∷ [])
      (query_at (some graph) none)
    ≡ (ready (clamp_result_tier graph (empty_result graph)), 3)
unfolding accept
resolve_with_steps-first_example =
    resolve_with_steps-first (absent ∷ at_tier types ∷ []) (at_tier syntax ∷ []) (at_tier graph)
      (query_at (some graph) none) (clamp_result_tier graph (empty_result graph)) (refl, (refl, tt))
      refl (omega arith)

resolve-within_example :
    AnswersWithin graph (resolve (at_tier types ∷ at_tier graph ∷ []) (query_at (some graph) none))
resolve-within_example =
    resolve-within (at_tier types ∷ at_tier graph ∷ []) (query_at (some graph) none) graph refl

-- A class in the file of the query, and a method of the same name in another file.
abbrev at_line : ℕ → Range
at_line n = record {
  start = record { line = n; character = 0 };
  end = record { line = n; character = 3 };
}

abbrev foo_in : Text → SymbolKind → Option ℕ → IndexedSymbol
foo_in file kind arity = record {
  file = file;
  uri = file;
  name = codes "foo";
  kind = kind;
  range = at_line 0;
  selection_range = at_line 0;
  arity = arity;
  fqn = codes "foo";
  container = none;
}

abbrev here : IndexedSymbol
here = foo_in (codes "A.java") class none

abbrev there : IndexedSymbol
there = foo_in (codes "B.java") method (some 1)

abbrev facts : GraphIndex
facts = record {
  symbols_in = λ file. here ∷ [];
  all_symbols = there ∷ here ∷ [];
  file_text = λ file. none;
  indexed_files = [];
  imports_in = λ file. [];
  parents_of = λ fqn. [];
  package_tier = λ pkg. some graph;
  package_of_file = λ file. some (codes "p");
  call_at = λ file pos.
      some (record { file = file; name = codes "foo"; arity = 1; line = 0; character = 0 });
}

resolve_syntax-definition_example :
    (s : IndexedSymbol) × (resolve_syntax facts (query_at none none)
      ≡ ready (with_locations syntax (to_location s syntax ∷ [])))
    × IsBest (codes "A.java") (definition_hits facts here false) here s
unfolding identifier_at is_within
resolve_syntax-definition_example =
    resolve_syntax-definition facts (query_at none none) here refl refl

resolve_heuristic-IsAnswer_example :
    (package_ready_for facts (query_at none none) ≡ true)
    × ((at : IndexedSymbol) × (identifier_at (query_at none none) (here ∷ []) ≡ some at)
        × IsAnswer facts at (with_locations graph (to_location there graph ∷ [])))
unfolding resolve_heuristic package_ready_for Heuristic.resolve_kind identifier_at is_within lookup
    prefer_imported
resolve_heuristic-IsAnswer_example =
    resolve_heuristic-IsAnswer facts (query_at none none)
      (with_locations graph (to_location there graph ∷ [])) refl
