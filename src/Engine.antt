-- ===== src/Engine.antt =====
-- progressive-lsp-engine: the values that its modules share (capabilities.rs, and EngineError of
-- progressive-lsp-core/src/error.rs).
pub mod Backoff
pub mod Supervisor
mod Examples
use progressive_lsp.Base.{ℕ, Bool, true, false, ◌||◌, Text}

pub record EngineCapabilities : Type 0 where
  pub definition : Bool
  pub references : Bool
  pub hover : Bool
  pub implementation : Bool
  pub type_definition : Bool

abbrev pub no_capabilities : EngineCapabilities
no_capabilities = record {
  definition = false;
  references = false;
  hover = false;
  implementation = false;
  type_definition = false;
}

abbrev pub types_full : EngineCapabilities
types_full = record {
  definition = true;
  references = true;
  hover = true;
  implementation = true;
  type_definition = true;
}

abbrev pub merge : EngineCapabilities → EngineCapabilities → EngineCapabilities
merge a b = record {
  definition = a.definition || b.definition;
  references = a.references || b.references;
  hover = a.hover || b.hover;
  implementation = a.implementation || b.implementation;
  type_definition = a.type_definition || b.type_definition;
}

pub data EngineError : Type 0 where
  spawn not_discovered crashed aborted : Text → EngineError
  hash : Text → Text → EngineError
  backoff : ℕ → EngineError
