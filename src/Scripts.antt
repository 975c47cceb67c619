-- ===== src/Scripts.antt =====
-- The command-line tools.
pub mod SendPdf
pub mod ChunkChainSpike
mod Tests
