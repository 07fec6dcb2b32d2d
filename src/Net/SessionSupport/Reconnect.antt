-- ===== src/Net/SessionSupport/Reconnect.antt =====
-- The reconnect policy of src/net/relay_session_support.cpp.
use monitostr.Prelude.{
  ℕ, zero, suc, ◌+◌, ◌-◌, ◌*◌, ◌^◌, ◌≤◌, ◌<◌, ◌≡◌, ◌↔◌, ◌⊎◌, Bool, true, false, Text, codes,
  text_eq_iff, arith,
}
use native.Mathlib.Decide.{ℕ_discrete}
use native.Mathlib.Nat.{pow-suc}
use Prim.Native.Nat.{bit_xor, ◌%◌}
use monitostr.Net.Services.{Services}
use monitostr.Net.SessionSupport.{
  max_reconnect_attempts, should_reconnect_attempt, backoff_exponent, compute_reconnect_delay_ms,
}

-- The stages whose failure is taken for a passing one.
abbrev pub IsRecoverable : Text → Type 0
IsRecoverable w =
    (w ≡ codes "read")
    ⊎ (w ≡ codes "resolve")
    ⊎ (w ≡ codes "connect")
    ⊎ (w ≡ codes "tls_handshake")
    ⊎ (w ≡ codes "write_req")

-- A reconnect is attempted exactly if the session is not stopped, fewer than six attempts were
-- made, and the stage that failed is one of the five recoverable ones.
pub should_reconnect_attempt_iff :
    (stopped : Bool) (attempt : ℕ) (w : Text)
    → (should_reconnect_attempt stopped attempt w ≡ true)
      ↔ ((stopped ≡ false) × (attempt < max_reconnect_attempts) × IsRecoverable w)
unfolding should_reconnect_attempt
should_reconnect_attempt_iff stopped attempt w = ground (
  arith,
  text_eq_iff w (codes "ws_handshake"),
  text_eq_iff w (codes "set_sni"),
  text_eq_iff w (codes "read"),
  text_eq_iff w (codes "resolve"),
  text_eq_iff w (codes "connect"),
  text_eq_iff w (codes "tls_handshake"),
  text_eq_iff w (codes "write_req"),
)

pow2_suc : (n : ℕ) → 2 ^ suc n ≡ 2 ^ n + 2 ^ n
pow2_suc n = omega (arith, pow-suc 2 n)

pow2_pos : (e : ℕ) → 1 ≤ 2 ^ e
pow2_pos zero = omega arith
pow2_pos (suc e) = omega (arith, pow2_suc e, pow2_pos e)

-- Doubling at each step of the exponent.
pow2_mono : (a b : ℕ) → a < b → 2 * 2 ^ a ≤ 2 ^ b
pow2_mono a zero h = elim h [ ]
pow2_mono a (suc b) h = elim (ℕ_discrete a b) [
  | yes e ↦ rw e (omega (arith, pow2_suc b))
  | no n ↦ omega (arith, pow2_suc b, pow2_mono a b (omega arith))
]

pow2_le : (e : ℕ) → e ≤ 8 → 2 ^ e ≤ 256
pow2_le e h = omega (arith, pow2_mono e 9 (omega arith))

backoff_exponent_le : (attempt : ℕ) → backoff_exponent attempt ≤ 8
unfolding backoff_exponent
backoff_exponent_le attempt = ground arith

backoff_exponent_early :
    (attempt : ℕ)
    → 1 ≤ attempt
    → attempt ≤ max_reconnect_attempts
    → backoff_exponent attempt ≡ attempt - 1
unfolding backoff_exponent
backoff_exponent_early attempt lo hi = ground arith

module _ (lib : Services) (url : Text) (bounded : (seed : ℕ) → lib.jitter seed ≤ 250) where
  -- If the jitter is at most 250, every wait is from 500 to 30000 ms, whatever the attempt.
  pub delay_range :
      (attempt entropy : ℕ)
      → (500 ≤ compute_reconnect_delay_ms lib url attempt entropy)
        × (compute_reconnect_delay_ms lib url attempt entropy ≤ 30000)
  unfolding compute_reconnect_delay_ms
  delay_range attempt entropy =
      let seed = bit_xor (lib.hash url) entropy % 2 ^ 32 in
      omega (
        arith,
        bounded seed,
        pow2_pos (backoff_exponent attempt),
        pow2_le (backoff_exponent attempt) (backoff_exponent_le attempt),
      )

  -- If the jitter is at most 250, attempt n, from 1 to 6, waits at least 500 * 2^(n-1) ms and at
  -- most 250 ms more.
  pub delay_window :
      (attempt entropy : ℕ)
      → 1 ≤ attempt
      → attempt ≤ max_reconnect_attempts
      → (500 * 2 ^ (attempt - 1) ≤ compute_reconnect_delay_ms lib url attempt entropy)
        × (compute_reconnect_delay_ms lib url attempt entropy ≤ 500 * 2 ^ (attempt - 1) + 250)
  unfolding compute_reconnect_delay_ms
  delay_window attempt entropy lo hi =
      let seed = bit_xor (lib.hash url) entropy % 2 ^ 32 in
      let e : backoff_exponent attempt ≡ attempt - 1 = backoff_exponent_early attempt lo hi in
      rw (e, compute_reconnect_delay_ms)
        (omega (arith, bounded seed, pow2_mono (attempt - 1) 6 (omega arith)))

  -- If the jitter is at most 250, a later one of the attempts 1 to 6 waits strictly longer than an
  -- earlier one, whatever the two draws.
  pub delay_grows :
      (earlier later entropy entropy' : ℕ)
      → 1 ≤ earlier
      → earlier < later
      → later ≤ max_reconnect_attempts
      → compute_reconnect_delay_ms lib url earlier entropy
        < compute_reconnect_delay_ms lib url later entropy'
  delay_grows earlier later entropy entropy' lo lt hi = omega (
    arith,
    pow2_pos (earlier - 1),
    pow2_mono (earlier - 1) (later - 1) (omega arith),
    delay_window earlier entropy lo (omega arith),
    delay_window later entropy' (omega arith) hi,
  )
