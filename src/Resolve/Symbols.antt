-- ===== src/Resolve/Symbols.antt =====
-- progressive-lsp-resolve/src/tree_sitter.rs and graph.rs: the symbols that an index holds, its facts
-- about imports, types and calls, and what they match.
pub mod Narrowing
use progressive_lsp.Base.{
  ℕ, zero, suc, ◌+◌, ◌-◌, ◌≤◌, List, [], ◌∷◌, ◌++◌, map, Bool, true, false, not, ◌&&◌, ◌||◌, Option,
  none, some, Text, text_eq, nat_eq, codes, if◌then◌else◌, ltb, leb, ◌==◌, length, drop, keep, any,
  ◌%◌, ◌^◌,
}
use progressive_lsp.Base.Utf8.{as_bytes}
use progressive_lsp.Base.Texts.{
  starts_with, ends_with, contains_text, trim_start_matches, trim_end_matches, is_whitespace, trim,
}
use progressive_lsp.Resolve.{
  Tier, Position, Range, SymbolKind, class, interface, enum, method, constructor_of, field,
  variable, LspLocation, DocumentSymbol, DocumentSymbols, symbol, no_symbols, is_within,
  ResolveQuery,
}

pub record IndexedSymbol : Type 0 where
  pub file : Text
  pub uri : Text
  pub name : Text
  pub kind : SymbolKind
  pub range : Range
  pub selection_range : Range
  pub arity : Option ℕ
  pub fqn : Text
  pub container : Option Text

unfoldable pub matches_needle : IndexedSymbol → Text → Bool
matches_needle s [] = true
matches_needle s (c ∷ needle) =
    contains_text s.name (c ∷ needle) || contains_text s.fqn (c ∷ needle)

abbrev pub to_location : IndexedSymbol → Tier → LspLocation
to_location s tier = record { uri = s.uri; range = s.selection_range; tier = tier }

unfoldable pub to_document_symbol : IndexedSymbol → DocumentSymbol
to_document_symbol s = symbol s.name s.kind s.range s.selection_range s.arity no_symbols

abbrev pub is_type : SymbolKind → Bool
is_type class = true
is_type interface = true
is_type enum = true
is_type kind = false

abbrev pub is_declaration : SymbolKind → Bool
is_declaration variable = false
is_declaration kind = true

-- The key of `identifier_at`: the rank of the kind, and where the name starts.
abbrev pub kind_rank : SymbolKind → ℕ
kind_rank method = 2
kind_rank constructor_of = 2
kind_rank class = 2
kind_rank interface = 2
kind_rank enum = 2
kind_rank kind = 1

abbrev pub key_le : IndexedSymbol → IndexedSymbol → Bool
key_le s t =
    let a = s.selection_range.start in
    let b = t.selection_range.start in
    ltb (kind_rank s.kind) (kind_rank t.kind)
    || (kind_rank s.kind == kind_rank t.kind
        && (ltb a.line b.line || (a.line == b.line && leb a.character b.character)))

-- `max_by_key`: of equal keys the last one.
abbrev pub max_of : IndexedSymbol → List IndexedSymbol → IndexedSymbol
max_of best [] = best
max_of best (s ∷ symbols) = max_of (if key_le best s then s else best) symbols

abbrev pub max_symbol : List IndexedSymbol → Option IndexedSymbol
max_symbol [] = none
max_symbol (s ∷ symbols) = some (max_of s symbols)

-- `identifier_at`, which both resolvers have: of the symbols in the file.
unfoldable pub identifier_at : ResolveQuery → List IndexedSymbol → Option IndexedSymbol
identifier_at q symbols = max_symbol (keep (λ s. is_within q.position s.selection_range) symbols)

pub record ImportDecl : Type 0 where
  pub file : Text
  pub path : Text
  pub simple : Text
  pub wildcard : Bool

-- `rsplit(p).next()`
abbrev pub after_last : (ℕ → Bool) → Text → Text → Text
after_last p current [] = current
after_last p current (c ∷ s) = elim (p c) [
  | true ↦ after_last p [] s
  | false ↦ after_last p (current ++ c ∷ []) s
]

unfoldable pub new_import : Text → Text → ImportDecl
new_import file path = record {
  file = file;
  path = path;
  simple = after_last (λ c. c == 46 || c == 92) [] path;
  wildcard = false;
}

unfoldable pub wildcard_import : Text → Text → ImportDecl
unfolding new_import
wildcard_import file path = record (new_import file path) { wildcard = true }

unfoldable pub import_matches : ImportDecl → Text → Bool
import_matches i name =
    if i.wildcard
    then true
    else i.simple == name || (i.path == name || ends_with i.path (46 ∷ name))

-- `trim_start_matches` of a word takes it off as often as it stands there.
abbrev pub strip_word : ℕ → Text → Text → Text
strip_word zero word s = s
strip_word (suc fuel) word s =
    let rest = strip_word fuel word (drop (length word) s) in if starts_with s word then rest else s

-- `trim_start_matches(word)`; every round takes the word off, so the text's length is enough.
abbrev pub trim_word : Text → Text → Text
trim_word word s = strip_word (length s) word s

abbrev pub before : ℕ → Text → Text
before at [] = []
before at (c ∷ s) = let rest = before at s in if c == at then [] else c ∷ rest

unfoldable pub type_ref_simple : Text → Text
type_ref_simple raw =
    let bare = trim (trim_word (codes "extends") (trim_word (codes "implements") (trim raw))) in
    trim (before 60 bare)

unfoldable pub type_ref_matches : Text → Text → Text → Bool
unfolding type_ref_simple
type_ref_matches parent name fqn =
    let simple = type_ref_simple parent in
    simple == name
    || (simple == fqn
        || (parent == name
            || (parent == fqn || after_last (λ c. c == 46 || c == 36) [] simple == name)))

pub record CallSite : Type 0 where
  pub file : Text
  pub name : Text
  pub arity : ℕ
  pub line : ℕ
  pub character : ℕ

-- `name.len()` counts bytes. A call so far right that the sum passes 32 bits is not modelled.
unfoldable pub covers : CallSite → Position → Bool
covers call pos =
    pos.line == call.line
    && (leb call.character pos.character
        && leb pos.character (call.character + length (as_bytes call.name) % 2 ^ 32))

-- `SymbolIndex` and `GraphIndex`: what a resolver asks of an index.
pub record GraphIndex : Type 0 where
  pub symbols_in : Text → List IndexedSymbol
  pub all_symbols : List IndexedSymbol
  pub file_text : Text → Option Text
  pub indexed_files : List Text
  pub imports_in : Text → List ImportDecl
  pub parents_of : Text → List Text
  pub package_tier : Text → Option Tier
  pub package_of_file : Text → Option Text
  pub call_at : Text → Position → Option CallSite

-- A choice that leaves nothing is not made.
abbrev pub narrowed : List IndexedSymbol → List IndexedSymbol → List IndexedSymbol
narrowed [] all = all
narrowed (s ∷ symbols) all = s ∷ symbols

abbrev pub named : Text → List IndexedSymbol → List IndexedSymbol
named name symbols = keep (λ s. s.name == name) symbols

-- A symbol that one of the imports brings.
abbrev pub imported_by : Text → List ImportDecl → IndexedSymbol → Bool
imported_by name imported s =
    any
      (λ i.
        s.fqn == i.path
        || (s.fqn == i.path ++ 46 ∷ name
            || (i.wildcard
                && ((starts_with s.fqn (i.path ++ 46 ∷ []) || s.fqn == i.path) && s.name == name))))
      imported

abbrev pub from_imports : Text → List ImportDecl → List IndexedSymbol → List IndexedSymbol
from_imports name [] candidates = named name candidates
from_imports name (i ∷ imported) candidates =
    narrowed (keep (imported_by name (i ∷ imported)) candidates) (named name candidates)

unfoldable pub prefer_imported : Text → List ImportDecl → List IndexedSymbol → List IndexedSymbol
prefer_imported name imports candidates =
    from_imports name (keep (λ i. import_matches i name) imports) candidates
