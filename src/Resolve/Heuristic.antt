-- ===== src/Resolve/Heuristic.antt =====
-- progressive-lsp-resolve/src/heuristic.rs: the resolver of the second tier, by names, imports, arity,
-- kind and scope.
pub mod Answers
use progressive_lsp.Base.{
  ℕ, ◌+◌, List, [], ◌∷◌, ◌++◌, Bool, true, false, not, ◌&&◌, ◌||◌, Option, none, some, Text,
  text_eq, nat_eq, if◌then◌else◌, ◌==◌, keep, any,
}
use progressive_lsp.Base.Texts.{ends_with}
use progressive_lsp.Resolve.{
  Tier, graph, or_else, SymbolKind, class, interface, enum, method, constructor_of, field,
  LspLocation, ResolveQuery, QueryKind, definition, references, type_definition, implementation,
  hover, document_symbol, workspace_symbol, ResolveResult, ResolveOutcome, ready, not_ready, Hover,
  no_symbols,
}
use progressive_lsp.Resolve.Symbols.{
  IndexedSymbol, CallSite, to_location, is_type, identifier_at, GraphIndex, prefer_imported,
  narrowed, type_ref_matches,
}
use progressive_lsp.Resolve.Syntax.{to_locations, ready_if_any, with_locations}

abbrev pub is_graph : Option Tier → Bool
is_graph (some graph) = true
is_graph tier = false

-- The package of the file has been ingested.
unfoldable pub package_ready_for : GraphIndex → ResolveQuery → Bool
package_ready_for index q = elim (index.package_of_file q.file) [
  | none ↦ false
  | some pkg ↦ is_graph (index.package_tier pkg)
]

abbrev pub call_arity : Option CallSite → Option ℕ
call_arity none = none
call_arity (some call) = some call.arity

abbrev pub has_arity : ℕ → IndexedSymbol → Bool
has_arity n s = elim s.arity [ none ↦ false | some m ↦ m == n ]

-- The kinds that declare something to go to.
abbrev pub is_target : SymbolKind → Bool
is_target method = true
is_target constructor_of = true
is_target class = true
is_target interface = true
is_target enum = true
is_target field = true
is_target kind = false

abbrev pub is_text : Text → Option Text → Bool
is_text t none = false
is_text t (some u) = u == t

-- In the container, the container itself, or the same of one of its parents.
abbrev pub in_scope : Text → List Text → IndexedSymbol → Bool
in_scope container parents s =
    is_text container s.container
    || (s.fqn == container || any (λ p. is_text p s.container || s.fqn == p) parents)

abbrev pub by_name : GraphIndex → ResolveQuery → IndexedSymbol → List IndexedSymbol
by_name index q at =
    narrowed (prefer_imported at.name (index.imports_in q.file) index.all_symbols)
      (keep (λ s. s.name == at.name || ends_with s.fqn (46 ∷ at.name)) index.all_symbols)

abbrev pub by_arity : Option ℕ → List IndexedSymbol → List IndexedSymbol
by_arity none symbols = symbols
by_arity (some n) symbols = narrowed (keep (has_arity n) symbols) symbols

abbrev pub by_kind : List IndexedSymbol → List IndexedSymbol
by_kind symbols = narrowed (keep (λ s. is_target s.kind) symbols) symbols

abbrev pub by_scope : GraphIndex → Option Text → List IndexedSymbol → List IndexedSymbol
by_scope index none symbols = symbols
by_scope index (some container) symbols =
    narrowed (keep (in_scope container (index.parents_of container)) symbols) symbols

unfoldable pub lookup : GraphIndex → ResolveQuery → IndexedSymbol → List IndexedSymbol
lookup index q at =
    let arity = or_else (call_arity (index.call_at q.file q.position)) at.arity in
    by_scope index at.container (by_kind (by_arity arity (by_name index q at)))

abbrev pub first_or : IndexedSymbol → List IndexedSymbol → IndexedSymbol
first_or s [] = s
first_or s (t ∷ symbols) = t

abbrev pub hover_at : GraphIndex → ResolveQuery → IndexedSymbol → ResolveOutcome
hover_at index q at =
    let best = first_or at (lookup index q at) in
    ready (record {
      locations = to_location best graph ∷ [];
      tier = graph;
      hover = some (record { name = best.name; arity = best.arity; type_info = none });
      symbols = no_symbols;
    })

-- The types of which a parent is the symbol at the caret.
unfoldable pub children_of : GraphIndex → IndexedSymbol → List IndexedSymbol
children_of index at =
    keep
      (λ s. is_type s.kind && any (λ p. type_ref_matches p at.name at.fqn) (index.parents_of s.fqn))
      index.all_symbols

abbrev pub implementations : GraphIndex → ResolveQuery → IndexedSymbol → List IndexedSymbol
implementations index q at =
    narrowed (children_of index at) (keep (λ s. is_type s.kind) (lookup index q at))

abbrev pub at_caret : GraphIndex → ResolveQuery → (IndexedSymbol → ResolveOutcome) → ResolveOutcome
at_caret index q found = elim (identifier_at q (index.symbols_in q.file)) [
  | none ↦ not_ready
  | some at ↦ found at
]

-- The `match` of `resolve`, when the package is ready.
unfoldable pub resolve_kind : GraphIndex → ResolveQuery → QueryKind → ResolveOutcome
resolve_kind index q document_symbol = not_ready
resolve_kind index q workspace_symbol = not_ready
resolve_kind index q hover = at_caret index q (hover_at index q)
resolve_kind index q definition =
    at_caret index q λ at. ready_if_any graph (to_locations graph (lookup index q at))
resolve_kind index q references =
    at_caret index q λ at. ready_if_any graph (to_locations graph (lookup index q at))
resolve_kind index q type_definition =
    at_caret index q
      λ at. ready_if_any graph (to_locations graph (keep (λ s. is_type s.kind) (lookup index q at)))
resolve_kind index q implementation =
    at_caret index q λ at. ready_if_any graph (to_locations graph (implementations index q at))

abbrev pub is_workspace_symbol : QueryKind → Bool
is_workspace_symbol workspace_symbol = true
is_workspace_symbol kind = false

unfoldable pub resolve_heuristic : GraphIndex → ResolveQuery → ResolveOutcome
resolve_heuristic index q =
    if not (package_ready_for index q) && not (is_workspace_symbol q.kind)
    then not_ready
    else resolve_kind index q q.kind
