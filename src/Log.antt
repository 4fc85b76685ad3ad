-- ===== src/Log.antt =====
-- progressive-lsp-log/src: how log records reach the log file.
pub mod Records
pub mod Batch
pub mod Writer
mod Examples
