-- ===== src/Resolve/Syntax/Locations.antt =====
-- Which definition the first tier gives (progressive-lsp-resolve/src/tree_sitter.rs).
use progressive_lsp.Base.{
  ◌<◌, ◌≡◌, ◌⊎◌, inl, inr, refl, ap, ◌∙◌, List, [], ◌∷◌, Bool, false, ◌||◌, some, arith, Text,
  text_eq, nat_eq, length, take, any, In, All, ◌==◌, Bool-cases,
}
use progressive_lsp.Resolve.{
  Tier, syntax, LspLocation, ResolveQuery, definition, ResolveOutcome, ready, empty_result,
}
use progressive_lsp.Base.Sorting.{insert_sorted, sort_by, All-sort_by}
use progressive_lsp.Resolve.Symbols.{IndexedSymbol, to_location, identifier_at, GraphIndex}
use progressive_lsp.Resolve.Symbols.Narrowing.{All-self}
use progressive_lsp.Resolve.Syntax.{
  definition_le, definition_hits, best_first, to_locations, definition_locations, with_locations,
  resolve_kind, resolve_syntax, at_caret,
}

-- Of sorted symbols the first one is in the file of the query if any of them is.
abbrev near : Text → IndexedSymbol → Bool
near file s = s.file == file

abbrev FirstIsNear : Text → Bool → List IndexedSymbol → Type 0
FirstIsNear file some_near [] = some_near ≡ false
FirstIsNear file some_near (s ∷ symbols) = near file s ≡ some_near

insert_sorted-FirstIsNear :
    (file : Text) (some_near : Bool) (s : IndexedSymbol) (symbols : List IndexedSymbol)
    → FirstIsNear file some_near symbols
    → FirstIsNear file (near file s || some_near) (insert_sorted (definition_le file) s symbols)
insert_sorted-FirstIsNear file some_near s [] h = ground (arith, h)
insert_sorted-FirstIsNear file some_near s (t ∷ symbols) h =
    elim (Bool-cases (definition_le file s t)) [
      | inl before ↦ rw before (ground (arith, h, before))
      | inr after ↦ rw after (ground (arith, h, after))
    ]

sort_by-FirstIsNear :
    (file : Text) (symbols : List IndexedSymbol)
    → FirstIsNear file (any (near file) symbols) (sort_by (definition_le file) symbols)
sort_by-FirstIsNear file [] = refl
sort_by-FirstIsNear file (s ∷ symbols) =
    insert_sorted-FirstIsNear file (any (near file) symbols) s
      (sort_by (definition_le file) symbols) (sort_by-FirstIsNear file symbols)

-- Where a definition leads: to the symbol at the caret if nothing declares its name, or else to one
-- of the candidates, which is in the file of the query if any of them is.
abbrev pub IsBest : Text → List IndexedSymbol → IndexedSymbol → IndexedSymbol → Type 0
IsBest file hits at s =
    ((hits ≡ []) × (s ≡ at)) ⊎ (In s hits × (near file s ≡ any (near file) hits))

sorted_head :
    (file : Text) (hits sorted : List IndexedSymbol)
    → 0 < length sorted
    → All (λ s. In s hits) sorted
    → FirstIsNear file (any (near file) hits) sorted
    → (s : IndexedSymbol) × (take 1 sorted ≡ s ∷ [])
      × (In s hits × (near file s ≡ any (near file) hits))
sorted_head file hits [] pos p f = absurd (omega arith)
sorted_head file hits (s ∷ sorted) pos p f = (s, refl, (p.0, f))

length-insert_sorted :
    (le : IndexedSymbol → IndexedSymbol → Bool) (s : IndexedSymbol) (symbols : List IndexedSymbol)
    → 0 < length (insert_sorted le s symbols)
length-insert_sorted le s [] = omega arith
length-insert_sorted le s (t ∷ symbols) = ground arith

best_of_hits :
    (q : ResolveQuery) (hits : List IndexedSymbol)
    → 0 < length hits
    → (s : IndexedSymbol) × (best_first q false hits ≡ s ∷ [])
      × (In s hits × (near q.file s ≡ any (near q.file) hits))
best_of_hits q [] pos = absurd (omega arith)
best_of_hits q (s ∷ []) pos = (s, refl, (inl refl, ground arith))
best_of_hits q (s ∷ t ∷ hits) pos =
    let all = s ∷ t ∷ hits in
    sorted_head q.file all (sort_by (definition_le q.file) all)
      (length-insert_sorted (definition_le q.file) s (sort_by (definition_le q.file) (t ∷ hits)))
      (All-sort_by (λ u. In u all) (definition_le q.file) all (All-self all))
      (sort_by-FirstIsNear q.file all)

definition_of_hits :
    (q : ResolveQuery) (at : IndexedSymbol) (hits : List IndexedSymbol) (tier : Tier)
    → (s : IndexedSymbol) × ((elim hits as (λ _. List LspLocation) [
      | [] ↦ to_location at tier ∷ []
      | t ∷ rest ↦ to_locations tier (best_first q false (t ∷ rest))
    ])
        ≡ to_location s tier ∷ [])
      × IsBest q.file hits at s
definition_of_hits q at [] tier = (at, refl, inl (refl, refl))
definition_of_hits q at (t ∷ rest) tier =
    let (s, e, best) = best_of_hits q (t ∷ rest) (omega arith) in
    (s, ap (to_locations tier) e, inr best)

at_caret-some :
    (index : GraphIndex) (q : ResolveQuery) (missing : ResolveOutcome)
    (found : IndexedSymbol → ResolveOutcome) (at : IndexedSymbol)
    → identifier_at q (index.symbols_in q.file) ≡ some at
    → at_caret index q missing found ≡ found at
at_caret-some index q missing found at e = ground (arith, e)

resolve_kind-definition :
    (index : GraphIndex) (q : ResolveQuery) (at : IndexedSymbol)
    → identifier_at q (index.symbols_in q.file) ≡ some at
    → resolve_kind index q definition
      ≡ ready (with_locations syntax (definition_locations index q at syntax false))
unfolding resolve_kind
resolve_kind-definition index q at found =
    at_caret-some index q (ready (empty_result syntax))
      (λ at. ready (with_locations syntax (definition_locations index q at syntax false))) at found

-- Asked for the definition of a symbol at the caret, the first tier gives one location: that of
-- the symbol itself if there is no candidate, or else that of a candidate, which is in the file
-- of the query if any candidate is.
pub resolve_syntax-definition :
    (index : GraphIndex) (q : ResolveQuery) (at : IndexedSymbol)
    → q.kind ≡ definition
    → identifier_at q (index.symbols_in q.file) ≡ some at
    → (s : IndexedSymbol) × (resolve_syntax index q
        ≡ ready (with_locations syntax (to_location s syntax ∷ [])))
      × IsBest q.file (definition_hits index at false) at s
unfolding resolve_syntax definition_locations
resolve_syntax-definition index q at kind found =
    let (s, e, best) = definition_of_hits q at (definition_hits index at false) syntax in
    (
      s,
      ap (resolve_kind index q) kind
          ∙ (resolve_kind-definition index q at found
              ∙ ap (λ locs. ready (with_locations syntax locs)) e),
      best,
    )
