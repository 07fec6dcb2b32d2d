-- ===== src/Program/Stale.antt =====
-- A key that is entered while a lookup is under way (src/main.cpp).
use monitostr.Prelude.{
  ℕ, ◌≡◌, ◌≢◌, refl, ap, sym, subst, ◌∙◌, true, List, [], ◌∷◌, Option, some, Text, All,
}
use monitostr.Nip19.Keys.{decode_nsec_to_hex}
use monitostr.Nostr.AuthKey.{AuthKey, from_hex_privkey}
use monitostr.Net.Services.{Services}
use monitostr.Net.RelaySession.{Session, Now}
use monitostr.Net.Bootstrap.{Seed, default_seed_relay_url, resolve_work}
use monitostr.Net.SessionManager.{has_active_sessions, update_auth_key}
use monitostr.Net.SessionManager.Start.{IsStopped, Runs}
use monitostr.Program.{Program, Lookup, say, take_key, submit_nsec, finish_lookup}
use monitostr.Program.Keys.{take_key-pushes, submit_nsec-takes}
use monitostr.Program.Lookups.{finish_lookup-Runs}

module _ (lib : Services) (now : Now) where
  take_key-retired :
      (key : AuthKey) (p : Program)
      → has_active_sessions p.manager ≡ true
      → (take_key lib now key p).manager.retired ≡ p.manager.retired
  unfolding take_key has_active_sessions update_auth_key say
  take_key-retired key p active = rw (active, take_key) refl

  Runs-stale :
      (key : AuthKey) (snapshot : Option AuthKey) (hex : Text) (sessions : List Session)
      → snapshot ≢ some key
      → All (Runs snapshot hex) sessions
      → All (λ s. s.auth_key ≢ some key) sessions
  Runs-stale key snapshot hex [] n h = tt
  Runs-stale key snapshot hex (s ∷ sessions) n h =
      ((λ e. n (sym h.0.keyed ∙ e)), Runs-stale key snapshot hex sessions n h.1)

  -- If the retired sessions are stopped and an nsec that is decoded and of which an AuthKey is
  -- made is entered while sessions run and the oldest lookup has another key snapshot, then every
  -- session has the new key at once, but if the lookup then ends well no session has it, though
  -- the program still holds it.
  pub stale_key :
      (nsec hex : Text) (key : AuthKey) (seeds : ℕ → Seed) (lookup : Lookup) (rest : List Lookup)
      (p : Program)
      → All IsStopped p.manager.retired
      → decode_nsec_to_hex nsec ≡ record { ok = true; hex = hex; error = [] }
      → from_hex_privkey lib now.signing.context hex ≡ some key
      → has_active_sessions p.manager ≡ true
      → p.lookups ≡ lookup ∷ rest
      → lookup.auth_key_snapshot ≢ some key
      → let q = submit_nsec lib now nsec p in
        (resolve_work lib now.stamp lookup.hex_pubkey default_seed_relay_url seeds
            q.manager.shared.logs).0.ok
          ≡ true
        → let q = submit_nsec lib now nsec p in
          let r = finish_lookup lib now seeds lookup rest q in
          All (λ s. s.auth_key ≡ some key) q.manager.sessions
          × (q.lookups ≡ lookup ∷ rest)
          × All (λ s. s.auth_key ≢ some key) r.manager.sessions
          × (r.auth_key ≡ some key)
  stale_key nsec hex key seeds lookup rest p stopped d k active queue other ok =
      let q = submit_nsec lib now nsec p in
      let takes = submit_nsec-takes lib now nsec hex key p d k in
      let pushed = take_key-pushes lib now key p active in
      let still = ap (λ (u : Program). u.manager.retired) takes ∙ take_key-retired key p active in
      let ended =
        finish_lookup-Runs lib now seeds lookup rest q (subst (All IsStopped) (sym still) stopped)
          ok in
      (
        subst (λ (u : Program). All (λ s. s.auth_key ≡ some key) u.manager.sessions) (sym takes)
            pushed.1,
        ap (λ (u : Program). u.lookups) takes ∙ pushed.4 ∙ queue,
        Runs-stale key lookup.auth_key_snapshot lookup.hex_pubkey _ other ended.2,
        ended.4 ∙ ap (λ (u : Program). u.auth_key) takes ∙ pushed.0,
      )
