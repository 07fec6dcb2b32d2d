-- ===== src/Net.antt =====
-- The network side of monitostr (src/net).
pub mod RelayTarget
pub mod Json
pub mod Services
pub mod SessionSupport
pub mod RelaySession
pub mod Bootstrap
pub mod SessionManager
