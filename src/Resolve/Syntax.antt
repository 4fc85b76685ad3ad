-- ===== src/Resolve/Syntax.antt =====
-- progressive-lsp-resolve/src/tree_sitter.rs: the resolver of the first tier, over an index of
-- symbols. Columns count characters in the search for the name under the caret, and bytes in the
-- search for its occurrences, as they do in the code.
pub mod Locations
use progressive_lsp.Base.{
  ℕ, zero, suc, ◌+◌, ◌-◌, List, [], ◌∷◌, ◌++◌, map, Bool, true, false, not, ◌&&◌, ◌||◌, Option,
  none, some, Text, text_eq, nat_eq, codes, if◌then◌else◌, ltb, leb, ◌==◌, length, keep, take, drop,
  get_elem?,
}
use progressive_lsp.Base.Bytes.{Bytes}
use progressive_lsp.Base.Utf8.{as_bytes, encode_char}
use progressive_lsp.Base.Sorting.{sort_by}
use progressive_lsp.Base.Texts.{starts_with, ends_with}
use progressive_lsp.Resolve.{
  Tier, syntax, Position, Range, SymbolKind, class, interface, enum, variable, LspLocation,
  DocumentSymbols, no_symbols, and_symbols, ResolveQuery, QueryKind, definition, references,
  type_definition, implementation, hover, document_symbol, workspace_symbol, ResolveResult,
  empty_result, ResolveOutcome, ready, not_ready, Hover,
}
use progressive_lsp.Resolve.Symbols.{
  IndexedSymbol, matches_needle, to_location, to_document_symbol, is_type, is_declaration,
  identifier_at, GraphIndex, narrowed,
}

abbrev pub is_ident_byte : ℕ → Bool
is_ident_byte b =
    (leb 48 b && leb b 57) || ((leb 65 b && leb b 90) || ((leb 97 b && leb b 122) || b == 95))

-- The byte at which the caret stands, or the end of the last character before a line feed.
abbrev pub byte_at : Position → Text → ℕ → ℕ → ℕ → ℕ → ℕ
byte_at pos [] line col i idx = idx
byte_at pos (c ∷ source) line col i idx =
    let next = i + length (encode_char c) in
    let new_line = byte_at pos source (line + 1) 0 next idx in
    let same_line = byte_at pos source line (col + 1) next next in
    if line == pos.line && col == pos.character then i else if c == 10 then new_line else same_line

abbrev pub ident_at : Bytes → ℕ → Bool
ident_at bytes n = elim (get_elem? bytes n) [ none ↦ false | some b ↦ is_ident_byte b ]

-- The two loops that move `start` back and `end` on.
abbrev pub ident_start : Bytes → ℕ → ℕ
ident_start bytes zero = 0
ident_start bytes (suc n) =
    let earlier = ident_start bytes n in if ident_at bytes n then earlier else suc n

abbrev pub ident_length : Bytes → ℕ
ident_length [] = 0
ident_length (b ∷ bytes) = let rest = ident_length bytes in if is_ident_byte b then suc rest else 0

unfoldable pub identifier_at_source : Text → Position → Option Text
identifier_at_source source pos =
    let bytes = as_bytes source in
    let idx = byte_at pos source 0 0 0 0 in
    let start = ident_start bytes idx in
    let end = idx + ident_length (drop idx bytes) in
    if leb (length bytes) idx
    then none
    else if leb end start
    then none
    else some (take (end - start) (drop start bytes))

abbrev pub is_ident : Option ℕ → Bool
is_ident none = false
is_ident (some b) = is_ident_byte b

-- The loop over a line: `prev` is the byte before, `i` the number of bytes before it.
abbrev pub occurrences_in_line : Bytes → ℕ → Option ℕ → ℕ → Bytes → List Position
occurrences_in_line needle line_no prev i [] = []
occurrences_in_line needle line_no prev i (b ∷ bytes) =
    let rest = occurrences_in_line needle line_no (some b) (i + 1) bytes in
    if starts_with (b ∷ bytes) needle
      && (not (is_ident prev) && not (ident_at (b ∷ bytes) (length needle)))
    then record { line = line_no; character = i } ∷ rest
    else rest

-- `lines()`: without the line feeds, and without a carriage return before one.
abbrev pub strip_cr : Bytes → Bytes
strip_cr [] = []
strip_cr (b ∷ []) = if b == 13 then [] else b ∷ []
strip_cr (b ∷ c ∷ bytes) = b ∷ strip_cr (c ∷ bytes)

abbrev pub lines_from : Bytes → Bytes → List Bytes
lines_from [] [] = []
lines_from (c ∷ line) [] = (c ∷ line) ∷ []
lines_from line (b ∷ bytes) = elim (b == 10) [
  | true ↦ strip_cr line ∷ lines_from [] bytes
  | false ↦ lines_from (line ++ b ∷ []) bytes
]

abbrev pub occurrences_from : Bytes → ℕ → List Bytes → List Position
occurrences_from needle line_no [] = []
occurrences_from needle line_no (line ∷ lines) =
    occurrences_in_line needle line_no none 0 line ++ occurrences_from needle (line_no + 1) lines

unfoldable pub identifier_occurrences_in_source : Text → Text → List Position
identifier_occurrences_in_source source [] = []
identifier_occurrences_in_source source (c ∷ name) =
    occurrences_from (as_bytes (c ∷ name)) 0 (lines_from [] (as_bytes source))

unfoldable pub lookup_name : GraphIndex → Text → List IndexedSymbol
lookup_name index name =
    keep (λ s. s.name == name || (ends_with s.fqn (46 ∷ name) || s.fqn == name)) index.all_symbols

unfoldable pub reference_name : GraphIndex → ResolveQuery → Option Text
reference_name index q = elim (identifier_at q (index.symbols_in q.file)) [
  | some at ↦ some at.name
  | none ↦ elim (index.file_text q.file) [
    | none ↦ none
    | some source ↦ identifier_at_source source q.position
  ]
]

abbrev pub point : Position → Range
point pos = record { start = pos; end = pos }

abbrev pub uri_of : Text → List IndexedSymbol → Text
uri_of file [] = codes "file:///" ++ file
uri_of file (s ∷ symbols) = s.uri

-- The occurrences in one file, which may have no text in memory.
unfoldable pub occurrences_in_file : GraphIndex → Text → Tier → Text → List LspLocation
occurrences_in_file index name tier file = elim (index.file_text file) [
  | none ↦ []
  | some source ↦
      map {A = Position}
        (λ pos. record {
          uri = uri_of file (index.symbols_in file);
          range = point pos;
          tier = tier;
        })
        (identifier_occurrences_in_source source name)
]

abbrev pub occurrences_in_files : GraphIndex → Text → Tier → List Text → List LspLocation
occurrences_in_files index name tier [] = []
occurrences_in_files index name tier (file ∷ files) =
    occurrences_in_file index name tier file ++ occurrences_in_files index name tier files

abbrev pub or_locations : List LspLocation → List LspLocation → List LspLocation
or_locations [] other = other
or_locations (l ∷ locs) other = l ∷ locs

abbrev pub to_locations : Tier → List IndexedSymbol → List LspLocation
to_locations tier symbols = map {A = IndexedSymbol} (λ s. to_location s tier) symbols

unfoldable pub reference_locations : GraphIndex → Text → Tier → List LspLocation
reference_locations index name tier =
    or_locations (occurrences_in_files index name tier index.indexed_files)
      (to_locations tier (lookup_name index name))

unfoldable pub type_locations : GraphIndex → IndexedSymbol → Tier → List LspLocation
type_locations index at tier =
    or_locations (to_locations tier (keep (λ s. is_type s.kind) (lookup_name index at.name)))
      (if is_type at.kind then to_location at tier ∷ [] else [])

abbrev pub type_rank : SymbolKind → ℕ
type_rank interface = 0
type_rank class = 1
type_rank enum = 2
type_rank kind = 3

-- The order in which the best definition stands first: symbols of the file itself, then by kind,
-- then by where they start.
abbrev pub definition_le : Text → IndexedSymbol → IndexedSymbol → Bool
definition_le file s t =
    let near = s.file == file in
    let near' = t.file == file in
    let a = s.selection_range.start in
    let b = t.selection_range.start in
    (near && not near')
    || ((near || not near')
        && (ltb (type_rank s.kind) (type_rank t.kind)
            || (type_rank s.kind == type_rank t.kind
                && (ltb a.line b.line || (a.line == b.line && leb a.character b.character)))))

abbrev pub is_variable : SymbolKind → Bool
is_variable variable = true
is_variable kind = false

-- The candidates for a definition of the symbol at the caret.
unfoldable pub definition_hits : GraphIndex → IndexedSymbol → Bool → List IndexedSymbol
definition_hits index at type_def =
    let hits =
      keep (λ s. if type_def then is_type s.kind else is_declaration s.kind)
        (lookup_name index at.name) in
    if not type_def && is_variable at.kind
    then narrowed
        (sort_by (λ s t. leb (type_rank s.kind) (type_rank t.kind))
          (keep (λ s. is_type s.kind) hits))
        hits
    else hits

-- Of several definitions the best one is given, of several types all.
abbrev pub best_first : ResolveQuery → Bool → List IndexedSymbol → List IndexedSymbol
best_first q true hits = hits
best_first q false [] = []
best_first q false (s ∷ []) = s ∷ []
best_first q false (s ∷ t ∷ hits) = take 1 (sort_by (definition_le q.file) (s ∷ t ∷ hits))

unfoldable pub definition_locations :
    GraphIndex → ResolveQuery → IndexedSymbol → Tier → Bool → List LspLocation
definition_locations index q at tier type_def = elim (definition_hits index at type_def) [
  | [] ↦ to_location at tier ∷ []
  | s ∷ hits ↦ to_locations tier (best_first q type_def (s ∷ hits))
]

abbrev pub document_symbols : List IndexedSymbol → DocumentSymbols
document_symbols [] = no_symbols
document_symbols (s ∷ symbols) = and_symbols (to_document_symbol s) (document_symbols symbols)

abbrev pub with_locations : Tier → List LspLocation → ResolveResult
with_locations tier locs = record {
  locations = locs;
  tier = tier;
  hover = none;
  symbols = no_symbols;
}

abbrev pub ready_if_any : Tier → List LspLocation → ResolveOutcome
ready_if_any tier [] = not_ready
ready_if_any tier (l ∷ locs) = ready (with_locations tier (l ∷ locs))

abbrev pub or_empty : Option Text → Text
or_empty none = []
or_empty (some s) = s

abbrev pub at_caret :
    GraphIndex → ResolveQuery → ResolveOutcome → (IndexedSymbol → ResolveOutcome) → ResolveOutcome
at_caret index q missing found = elim (identifier_at q (index.symbols_in q.file)) [
  | none ↦ missing
  | some at ↦ found at
]

-- `resolve`, by the kind of the query.
unfoldable pub resolve_kind : GraphIndex → ResolveQuery → QueryKind → ResolveOutcome
resolve_kind index q document_symbol = ready (record {
  locations = [];
  tier = syntax;
  hover = none;
  symbols = document_symbols (index.symbols_in q.file);
})
resolve_kind index q workspace_symbol = ready (
    with_locations syntax (
      to_locations syntax
        (keep (λ s. matches_needle s (or_empty q.symbol_query)) index.all_symbols)))
resolve_kind index q hover = at_caret index q (ready (empty_result syntax)) λ s. ready (record {
  locations = to_location s syntax ∷ [];
  tier = syntax;
  hover = some (record { name = s.name; arity = s.arity; type_info = none });
  symbols = no_symbols;
})
resolve_kind index q definition =
    at_caret index q (ready (empty_result syntax))
      λ at. ready (with_locations syntax (definition_locations index q at syntax false))
resolve_kind index q type_definition =
    at_caret index q (ready (empty_result syntax))
      λ at. ready (with_locations syntax (definition_locations index q at syntax true))
resolve_kind index q references = elim (reference_name index q) [
  | none ↦ not_ready
  | some name ↦ ready_if_any syntax (reference_locations index name syntax)
]
resolve_kind index q implementation =
    at_caret index q not_ready λ at. ready_if_any syntax (type_locations index at syntax)

unfoldable pub resolve_syntax : GraphIndex → ResolveQuery → ResolveOutcome
unfolding resolve_kind
resolve_syntax index q = resolve_kind index q q.kind
