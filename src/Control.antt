-- ===== src/Control.antt =====
-- progressive-lsp-control: what the control service keeps between its calls.
pub mod TraceRing
mod Examples
