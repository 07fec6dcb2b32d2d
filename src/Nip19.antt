-- ===== src/Nip19.antt =====
-- The NIP-19 encodings (src/nip19).
pub mod Hex
pub mod Convert
pub mod Bech32
pub mod Keys
