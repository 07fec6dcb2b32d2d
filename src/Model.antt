-- ===== src/Model.antt =====
-- The state that the network side writes and the terminal UI reads.
pub mod Window
pub mod LogBuffer
pub mod RelayStats
