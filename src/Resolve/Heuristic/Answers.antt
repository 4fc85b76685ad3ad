-- ===== src/Resolve/Heuristic/Answers.antt =====
-- What the answers of the second tier are made of (progressive-lsp-resolve/src/heuristic.rs).
use progressive_lsp.Base.{
  ℕ, ◌<◌, ◌≡◌, ◌⊎◌, inl, inr, refl, sym, ◌∙◌, subst, List, [], ◌∷◌, Bool, true, Option, none, some,
  arith, Text, length, keep, any, All, All-keep, In, Option-cases,
}
use progressive_lsp.Resolve.{
  graph, or_else, LspLocation, ResolveQuery, QueryKind, definition, references, type_definition,
  implementation, hover, document_symbol, workspace_symbol, ResolveResult, ResolveOutcome, ready,
  not_ready,
}
use progressive_lsp.Resolve.Symbols.{
  IndexedSymbol, to_location, is_type, identifier_at, GraphIndex, narrowed,
}
use progressive_lsp.Resolve.Symbols.Narrowing.{
  All-narrowed, All-prefer_imported, length-narrowed, All-self,
}
use progressive_lsp.Resolve.Syntax.{to_locations, ready_if_any, with_locations}
use progressive_lsp.Resolve.Heuristic.{
  package_ready_for, call_arity, has_arity, by_name, by_arity, by_kind, by_scope, lookup, first_or,
  hover_at, children_of, implementations, at_caret, is_workspace_symbol, resolve_kind,
  resolve_heuristic,
}

module _ (P : IndexedSymbol → Type 0) (index : GraphIndex) where
  All-by_arity : (arity : Option ℕ) (xs : List IndexedSymbol) → All P xs → All P (by_arity arity xs)
  All-by_arity none xs p = p
  All-by_arity (some n) xs p = All-narrowed P _ xs (All-keep P _ xs p) p

  All-by_kind : (xs : List IndexedSymbol) → All P xs → All P (by_kind xs)
  All-by_kind xs p = All-narrowed P _ xs (All-keep P _ xs p) p

  All-by_scope :
      (container : Option Text) (xs : List IndexedSymbol)
      → All P xs
      → All P (by_scope index container xs)
  All-by_scope none xs p = p
  All-by_scope (some c) xs p = All-narrowed P _ xs (All-keep P _ xs p) p

  All-lookup :
      (q : ResolveQuery) (at : IndexedSymbol) → All P index.all_symbols → All P (lookup index q at)
  unfolding lookup
  All-lookup q at p = All-by_scope at.container _ (
      All-by_kind _
        (All-by_arity (or_else (call_arity (index.call_at q.file q.position)) at.arity) _ named))
    where
      named : All P (by_name index q at)
      named =
          All-narrowed P _ _
            (All-prefer_imported P at.name (index.imports_in q.file) index.all_symbols p)
            (All-keep P _ index.all_symbols p)

-- A location of a symbol of the index, or of the symbol at the caret.
abbrev pub IsOf : GraphIndex → IndexedSymbol → LspLocation → Type 0
IsOf index at l =
    (s : IndexedSymbol) × (In s index.all_symbols ⊎ (s ≡ at)) × (l ≡ to_location s graph)

All-to_locations :
    (index : GraphIndex) (at : IndexedSymbol) (xs : List IndexedSymbol)
    → All (λ s. In s index.all_symbols) xs
    → All (IsOf index at) (to_locations graph xs)
All-to_locations index at [] p = tt
All-to_locations index at (x ∷ xs) p = ((x, inl p.0, refl), All-to_locations index at xs p.1)

-- An answer of the second tier, and what it rests on.
abbrev pub IsAnswer : GraphIndex → IndexedSymbol → ResolveResult → Type 0
IsAnswer index at r = (r.tier ≡ graph) × (0 < length r.locations) × All (IsOf index at) r.locations

ready_if_any-IsAnswer :
    (index : GraphIndex) (at : IndexedSymbol) (xs : List IndexedSymbol) (r : ResolveResult)
    → All (λ s. In s index.all_symbols) xs
    → ready_if_any graph (to_locations graph xs) ≡ ready r
    → IsAnswer index at r
ready_if_any-IsAnswer index at [] r p h = cc
ready_if_any-IsAnswer index at (x ∷ xs) r p h =
    let e : with_locations graph (to_locations graph (x ∷ xs)) ≡ r = cc in
    subst (IsAnswer index at) e (refl, omega arith, All-to_locations index at (x ∷ xs) p)

first_or-In :
    (index : GraphIndex) (at : IndexedSymbol) (xs : List IndexedSymbol)
    → All (λ s. In s index.all_symbols) xs
    → In (first_or at xs) index.all_symbols ⊎ (first_or at xs ≡ at)
first_or-In index at [] p = inr refl
first_or-In index at (x ∷ xs) p = inl p.0

at_caret-none :
    (index : GraphIndex) (q : ResolveQuery) (found : IndexedSymbol → ResolveOutcome)
    → identifier_at q (index.symbols_in q.file) ≡ none
    → at_caret index q found ≡ not_ready
at_caret-none index q found e = ground (arith, e)

at_caret-some :
    (index : GraphIndex) (q : ResolveQuery) (found : IndexedSymbol → ResolveOutcome)
    (at : IndexedSymbol)
    → identifier_at q (index.symbols_in q.file) ≡ some at
    → at_caret index q found ≡ found at
at_caret-some index q found at e = ground (arith, e)

at_caret-IsAnswer :
    (index : GraphIndex) (q : ResolveQuery) (found : IndexedSymbol → ResolveOutcome)
    (r : ResolveResult)
    → ((at : IndexedSymbol) → found at ≡ ready r → IsAnswer index at r)
    → at_caret index q found ≡ ready r
    → (at : IndexedSymbol) × (identifier_at q (index.symbols_in q.file) ≡ some at)
      × IsAnswer index at r
at_caret-IsAnswer index q found r answers h =
    elim (Option-cases (identifier_at q (index.symbols_in q.file))) [
      | inl missing ↦ absurd (cc (at_caret-none index q found missing, h))
      | inr (at, e) ↦ (at, e, answers at (sym (at_caret-some index q found at e) ∙ h))
    ]

hover_at-IsAnswer :
    (index : GraphIndex) (q : ResolveQuery) (at : IndexedSymbol) (r : ResolveResult)
    → hover_at index q at ≡ ready r
    → IsAnswer index at r
hover_at-IsAnswer index q at r h =
    let best = first_or at (lookup index q at) in
    let mine =
      first_or-In index at (lookup index q at)
        (All-lookup (λ s. In s index.all_symbols) index q at (All-self index.all_symbols)) in
    let tier_eq : graph ≡ r.tier = cc in
    let locs : to_location best graph ∷ [] ≡ r.locations = cc in
    (sym tier_eq, rw (← locs) (omega arith), rw (← locs) ((best, mine, refl), tt))

children_of-In :
    (index : GraphIndex) (at : IndexedSymbol)
    → All (λ s. In s index.all_symbols) (children_of index at)
unfolding children_of
children_of-In index at =
    All-keep (λ s. In s index.all_symbols) _ index.all_symbols (All-self index.all_symbols)

lookup-In :
    (index : GraphIndex) (q : ResolveQuery) (at : IndexedSymbol)
    → All (λ s. In s index.all_symbols) (lookup index q at)
lookup-In index q at =
    All-lookup (λ s. In s index.all_symbols) index q at (All-self index.all_symbols)

resolve_kind-IsAnswer :
    (index : GraphIndex) (q : ResolveQuery) (kind : QueryKind) (r : ResolveResult)
    → resolve_kind index q kind ≡ ready r
    → (at : IndexedSymbol) × (identifier_at q (index.symbols_in q.file) ≡ some at)
      × IsAnswer index at r
unfolding resolve_kind
resolve_kind-IsAnswer index q document_symbol r h = cc
resolve_kind-IsAnswer index q workspace_symbol r h = cc
resolve_kind-IsAnswer index q hover r h =
    at_caret-IsAnswer index q (hover_at index q) r (λ at. hover_at-IsAnswer index q at r) h
resolve_kind-IsAnswer index q definition r h =
    at_caret-IsAnswer index q _ r
      (λ at. ready_if_any-IsAnswer index at (lookup index q at) r (lookup-In index q at)) h
resolve_kind-IsAnswer index q references r h =
    at_caret-IsAnswer index q _ r
      (λ at. ready_if_any-IsAnswer index at (lookup index q at) r (lookup-In index q at)) h
resolve_kind-IsAnswer index q type_definition r h =
    at_caret-IsAnswer index q _ r
      (λ at.
        ready_if_any-IsAnswer index at (keep (λ s. is_type s.kind) (lookup index q at)) r
          (All-keep (λ s. In s index.all_symbols) _ (lookup index q at) (lookup-In index q at)))
      h
resolve_kind-IsAnswer index q implementation r h =
    at_caret-IsAnswer index q _ r
      (λ at. ready_if_any-IsAnswer index at (implementations index q at) r (
        All-narrowed (λ s. In s index.all_symbols) (children_of index at) _
          (children_of-In index at)
          (All-keep (λ s. In s index.all_symbols) _ (lookup index q at) (lookup-In index q at))))
      h

workspace_not_ready :
    (index : GraphIndex) (q : ResolveQuery) (kind : QueryKind)
    → is_workspace_symbol kind ≡ true
    → resolve_kind index q kind ≡ not_ready
unfolding resolve_kind
workspace_not_ready index q workspace_symbol h = refl
workspace_not_ready index q document_symbol h = refl
workspace_not_ready index q kind h = cc

is_ready :
    (index : GraphIndex) (q : ResolveQuery) (r : ResolveResult)
    → resolve_heuristic index q ≡ ready r
    → (package_ready_for index q ≡ true) × (resolve_kind index q q.kind ≡ ready r)
unfolding resolve_heuristic
is_ready index q r h = ground (arith, h, workspace_not_ready index q q.kind)

-- If the second tier answers a query, the package of the file has been ingested, a symbol stands
-- at the caret, and the answer has the tier of the graph and locations, each of which is that of
-- a symbol of the index or of the symbol at the caret.
pub resolve_heuristic-IsAnswer :
    (index : GraphIndex) (q : ResolveQuery) (r : ResolveResult)
    → resolve_heuristic index q ≡ ready r
    → (package_ready_for index q ≡ true)
      × ((at : IndexedSymbol) × (identifier_at q (index.symbols_in q.file) ≡ some at)
          × IsAnswer index at r)
resolve_heuristic-IsAnswer index q r h =
    let (pkg_ready, e) = is_ready index q r h in
    (pkg_ready, resolve_kind-IsAnswer index q q.kind r e)

All-keep_self :
    (p : IndexedSymbol → Bool) (xs : List IndexedSymbol) → All (λ s. p s ≡ true) (keep p xs)
All-keep_self p [] = tt
All-keep_self p (x ∷ xs) = ground (arith, All-keep_self p xs)

narrowed-any :
    (p : IndexedSymbol → Bool) (xs : List IndexedSymbol)
    → any p xs ≡ true
    → (narrowed (keep p xs) xs ≡ keep p xs) × (0 < length (keep p xs))
narrowed-any p xs h = (narrowed-pos (keep p xs) xs (some_kept xs h), some_kept xs h)
  where
    some_kept : (ys : List IndexedSymbol) → any p ys ≡ true → 0 < length (keep p ys)
    some_kept [] k = cc
    some_kept (y ∷ ys) k = ground (arith, some_kept ys)

    narrowed-pos : (ys all : List IndexedSymbol) → 0 < length ys → narrowed ys all ≡ ys
    narrowed-pos [] all k = absurd (omega arith)
    narrowed-pos (y ∷ ys) all k = refl

length-by_scope :
    (index : GraphIndex) (container : Option Text) (xs : List IndexedSymbol)
    → 0 < length xs
    → 0 < length (by_scope index container xs)
length-by_scope index none xs h = h
length-by_scope index (some c) xs h = length-narrowed _ xs h

by_arity-has_arity :
    (n : ℕ) (xs : List IndexedSymbol)
    → any (has_arity n) xs ≡ true
    → (0 < length (by_arity (some n) xs)) × All (λ s. has_arity n s ≡ true) (by_arity (some n) xs)
by_arity-has_arity n xs h =
    let (e, pos) = narrowed-any (has_arity n) xs h in rw e (pos, All-keep_self (has_arity n) xs)

-- If the call at the caret, or else the symbol there, has an arity, and one of the candidates by
-- name has it too, the lookup gives candidates, and all of this arity, whatever is chosen by kind
-- and scope.
lookup-has_arity :
    (index : GraphIndex) (q : ResolveQuery) (at : IndexedSymbol) (n : ℕ)
    → or_else (call_arity (index.call_at q.file q.position)) at.arity ≡ some n
    → any (has_arity n) (by_name index q at) ≡ true
    → (0 < length (lookup index q at)) × All (λ s. has_arity n s ≡ true) (lookup index q at)
unfolding lookup
lookup-has_arity index q at n arity some_has =
    let (pos, has) = by_arity-has_arity n (by_name index q at) some_has in
    rw arity (
      length-by_scope index at.container (by_kind (by_arity (some n) (by_name index q at)))
          (length-narrowed _ (by_arity (some n) (by_name index q at)) pos),
      All-by_scope (λ s. has_arity n s ≡ true) index at.container _
          (All-by_kind (λ s. has_arity n s ≡ true) index _ has),
    )
