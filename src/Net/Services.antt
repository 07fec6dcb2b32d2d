-- ===== src/Net/Services.antt =====
-- What the network side takes from libraries: nlohmann::json, std::hash, std::mt19937 with a uniform
-- distribution on 0..250, OpenSSL and libsecp256k1. Nothing is assumed of them here; a theorem that
-- relies on their documented behaviour says so in a hypothesis.
use monitostr.Prelude.{ℕ, List, Option, Text}
use monitostr.Net.Json.{Json}

pub record Services : Type 0 where
  -- `json::parse(text, nullptr, false)`; `none` is a discarded value.
  pub parse : Text → Option Json
  -- `json.dump()`.
  pub dump : Json → Text
  -- `std::hash<std::string>`.
  pub hash : Text → ℕ
  -- The first draw of `uniform_int_distribution<int>(0, 250)` from an engine with this seed.
  pub jitter : ℕ → ℕ
  -- The serialised x-only public key of a private key; `none` if libsecp256k1 refuses it.
  pub public_key : List ℕ → Option (List ℕ)
  -- SHA256 of a text.
  pub sha256 : Text → List ℕ
  -- `secp256k1_schnorrsig_sign32` of a digest under a private key with auxiliary randomness.
  pub schnorr_sign : List ℕ → List ℕ → List ℕ → Option (List ℕ)
