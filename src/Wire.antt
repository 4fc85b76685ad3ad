-- ===== src/Wire.antt =====
-- The framings of the wire: progressive-lsp-control/src/codec.rs and progressive-lsp-protocol/src.
pub mod Codec
pub mod Mux
pub mod Framing
mod Examples
