-- ===== src/Ide.antt =====
-- The sample editor: the parts of poc-ide/src that keep its documents, tabs and conflicts. A path is
-- the text of a path that is already taken apart and put together again, so that equal paths are
-- equal texts.
pub mod Ports
pub mod Buffer
pub mod Edit
pub mod Tabs
pub mod Tree
pub mod Tiers
pub mod DiskWatch
mod Examples
