-- ===== src/Nostr.antt =====
-- Keys and signatures (src/nostr).
pub mod Signer
pub mod AuthKey
