-- ===== src/Resolve.antt =====
-- progressive-lsp-resolve/src/query.rs: the types of queries and answers, and Tier of
-- progressive-lsp-core/src/ids.rs. Identifiers and URIs are texts.
pub mod Chain
pub mod Symbols
pub mod Syntax
pub mod Heuristic
mod Examples
use progressive_lsp.Base.{
  ℕ, Bool, true, false, ◌&&◌, ◌||◌, not, List, [], Option, none, some, Text, text_eq, nat_eq, ltb,
  if◌then◌else◌, ◌==◌, codes, PartialEq, ◌↔◌, ◌≡◌, refl, ==_iff, arith, ap,
}

pub data Tier : Type 0 where
  syntax graph types : Tier

abbrev pub rank : Tier → ℕ
rank syntax = 0
rank graph = 1
rank types = 2

abbrev pub is_above : Tier → Tier → Bool
is_above tier ceiling = ltb (rank ceiling) (rank tier)

pub record Position : Type 0 where
  pub line : ℕ
  pub character : ℕ

pub record Range : Type 0 where
  pub start : Position
  pub end : Position

unfoldable pub is_within : Position → Range → Bool
is_within p r =
    if ltb p.line r.start.line || ltb r.end.line p.line
    then false
    else if p.line == r.start.line && ltb p.character r.start.character
    then false
    else if p.line == r.end.line && ltb r.end.character p.character
    then false
    else true

pub data QueryKind : Type 0 where
  definition references type_definition implementation hover : QueryKind
  document_symbol workspace_symbol : QueryKind

pub record ChainPolicy : Type 0 where
  pub max_chain_iter : Option ℕ
  pub max_tier : Option Tier

abbrev pub unlimited : ChainPolicy
unlimited = record { max_chain_iter = none; max_tier = none }

abbrev pub or_else : {A : Type 0} → Option A → Option A → Option A
or_else none b = b
or_else (some a) b = some a

abbrev pub merge_policy : ChainPolicy → ChainPolicy → ChainPolicy
merge_policy base over = record {
  max_chain_iter = or_else over.max_chain_iter base.max_chain_iter;
  max_tier = or_else over.max_tier base.max_tier;
}

pub record ResolveQuery : Type 0 where
  pub file : Text
  pub position : Position
  pub kind : QueryKind
  pub symbol_query : Option Text
  pub chain_policy : ChainPolicy

abbrev pub new_query : Text → Position → QueryKind → ResolveQuery
new_query file position kind = record {
  file = file;
  position = position;
  kind = kind;
  symbol_query = none;
  chain_policy = unlimited;
}

pub record LspLocation : Type 0 where
  pub uri : Text
  pub range : Range
  pub tier : Tier

pub record Hover : Type 0 where
  pub name : Text
  pub arity : Option ℕ
  pub type_info : Option Text

pub data SymbolKind : Type 0 where
  file class interface enum method constructor_of field variable in_package : SymbolKind

mutual
  pub data DocumentSymbol : Type 0 where
    symbol : Text → SymbolKind → Range → Range → Option ℕ → DocumentSymbols → DocumentSymbol

  pub data DocumentSymbols : Type 0 where
    no_symbols : DocumentSymbols
    and_symbols : DocumentSymbol → DocumentSymbols → DocumentSymbols

pub record ResolveResult : Type 0 where
  pub locations : List LspLocation
  pub tier : Tier
  pub hover : Option Hover
  pub symbols : DocumentSymbols

abbrev pub empty_result : Tier → ResolveResult
empty_result tier = record { locations = []; tier = tier; hover = none; symbols = no_symbols }

pub data ResolveOutcome : Type 0 where
  ready : ResolveResult → ResolveOutcome
  not_ready : ResolveOutcome
