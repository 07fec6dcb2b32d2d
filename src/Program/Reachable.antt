-- ===== src/Program/Reachable.antt =====
-- The states that the program of src/main.cpp can reach.
use monitostr.Prelude.{
  ℕ, ◌≡◌, refl, ap, sym, subst, ◌∙◌, List, [], ◌∷◌, ◌++◌, Option, Text, codes, to_string, length,
  All, Bool-cases, inl, inr, arith,
}
use monitostr.Model.LogBuffer.{info, error}
use monitostr.Net.Services.{Services}
use monitostr.Net.RelaySession.{Session, Now}
use monitostr.Net.RelaySession.Table.{Step-Tabled}
use monitostr.Net.Bootstrap.{Seed, BootstrapResult, resolve_work, default_seed_relay_url}
use monitostr.Net.SessionManager.{SessionManager}
use monitostr.Net.SessionManager.Start.{IsStopped, Runs, start_sessions_lem}
use monitostr.Net.SessionManager.Table.{start_sessions-Tabled}
use monitostr.Nostr.AuthKey.{AuthKey}
use monitostr.Ui.App.{App}
use monitostr.Ui.App
use monitostr.Ui.App.View.{frame, settled}
use monitostr.Program.{Program, Lookup, initial, say, on_resolved, finish_lookup, host_of}
use monitostr.Program.Steps.{
  ProgramStep, terminal, draws, looks_up, running, retired, ProgramSteps, here, next, Step-Kept,
}
use monitostr.Program.Invariant.{IsHexKey, IsProper, say-IsProper, on_terminal-IsProper}

module _ {ℓ κ} {A : Type ℓ} (P : A → Type κ) where
  All-middle : (xs ys : List A) {x : A} → All P (xs ++ x ∷ ys) → P x
  All-middle [] ys h = h.0
  All-middle (z ∷ xs) ys h = All-middle xs ys h.1

  All-replace : (xs ys : List A) (x : A) {y : A} → All P (xs ++ x ∷ ys) → P y → All P (xs ++ y ∷ ys)
  All-replace [] ys x h p = (p, h.1)
  All-replace (z ∷ xs) ys x h p = (h.0, All-replace xs ys x h.1 p)

Runs-IsHexKey :
    (key : Option AuthKey) (hex : Text) (sessions : List Session)
    → IsHexKey hex
    → All (Runs key hex) sessions
    → All (λ s. IsHexKey s.hex_pubkey) sessions
Runs-IsHexKey key hex [] k h = tt
Runs-IsHexKey key hex (s ∷ sessions) k h =
    (ap length h.0.for ∙ k, Runs-IsHexKey key hex sessions k h.1)

on_resolved-IsProper :
    (lib : Services) (now : Now) (lookup : Lookup) (result : BootstrapResult) (p : Program)
    → IsHexKey lookup.hex_pubkey
    → IsProper p
    → IsProper (on_resolved lib now lookup result p)
unfolding on_resolved
on_resolved-IsProper lib now lookup result p k h = elim (Bool-cases result.ok) [
  | inl e ↦
      let told =
        say-IsProper now info
          (codes "Bootstrap returned " ++ (to_string (length result.relay_urls) ++ codes " relays"))
          p h in
      let m : SessionManager =
        (say now info
          (codes "Bootstrap returned " ++ (to_string (length result.relay_urls) ++ codes " relays"))
          p).manager in
      let started =
        start_sessions_lem lib now result.relay_urls lookup.hex_pubkey lookup.auth_key_snapshot m
          told.retired_stopped in
      rw (e, on_resolved)
        (record {
          sound = told.sound;
          tabled =
              start_sessions-Tabled lib now result.relay_urls lookup.hex_pubkey
                lookup.auth_key_snapshot m told.tabled;
          lookup_keys = told.lookup_keys;
          session_keys = Runs-IsHexKey lookup.auth_key_snapshot lookup.hex_pubkey _ k started.1;
          retired_stopped = started.2;
        })
  | inr e ↦ rw (e, on_resolved) (say-IsProper now error _ p h)
]

finish_lookup-IsProper :
    (lib : Services) (now : Now) (seeds : ℕ → Seed) (lookup : Lookup) (rest : List Lookup)
    (p : Program)
    → p.lookups ≡ lookup ∷ rest
    → IsProper p
    → IsProper (finish_lookup lib now seeds lookup rest p)
unfolding finish_lookup
finish_lookup-IsProper lib now seeds lookup rest p e h =
    let keys = subst (All (λ l. IsHexKey l.hex_pubkey)) e h.lookup_keys in
    let resolved =
      resolve_work lib now.stamp lookup.hex_pubkey default_seed_relay_url seeds
        p.manager.shared.logs in
    on_resolved-IsProper lib now lookup resolved.0 _ keys.0 (record {
      sound = h.sound;
      tabled = h.tabled;
      lookup_keys = keys.1;
      session_keys = h.session_keys;
      retired_stopped = h.retired_stopped;
    })

draws-IsProper :
    (dimx dimy : ℕ) (p : Program)
    → IsProper p
    → IsProper (record p { app = (frame dimx dimy p.app p.manager.shared).0 })
unfolding frame settled
draws-IsProper dimx dimy p h = record {
  sound = record {
    input_short = h.sound.input_short;
    command_short = h.sound.command_short;
    query_short = h.sound.query_short;
    held = h.sound.held;
  };
  tabled = h.tabled;
  lookup_keys = h.lookup_keys;
  session_keys = h.session_keys;
  retired_stopped = h.retired_stopped;
}

initial-IsProper : (now : Now) → IsProper (initial now)
unfolding initial App.new
initial-IsProper now = say-IsProper now info (codes "Application started") _ (record {
  sound = record {
    input_short = omega arith;
    command_short = omega arith;
    query_short = omega arith;
    held = (refl, refl);
  };
  tabled = tt;
  lookup_keys = tt;
  session_keys = tt;
  retired_stopped = tt;
})

step-IsProper : (lib : Services) {p q : Program} → IsProper p → ProgramStep lib p q → IsProper q
step-IsProper lib {p} h (terminal now copy_text save_text event u e) =
    subst IsProper (sym e)
      (on_terminal-IsProper lib now (host_of now copy_text save_text) event p u h)
step-IsProper lib {p} h (draws dimx dimy e) = subst IsProper (sym e) (draws-IsProper dimx dimy p h)
step-IsProper lib {p} h (looks_up now seeds lookup rest q e) =
    subst IsProper (sym e) (finish_lookup-IsProper lib now seeds lookup rest p q h)
step-IsProper lib {p} h (running s xs ys st q step e) =
    let keys = subst (All (λ (s : Session). IsHexKey s.hex_pubkey)) q h.session_keys in
    let kept = Step-Kept lib step in
    subst IsProper (sym e) (record {
      sound = h.sound;
      tabled = Step-Tabled lib step h.tabled;
      lookup_keys = h.lookup_keys;
      session_keys =
          All-replace (λ s. IsHexKey s.hex_pubkey) xs ys s keys
            (ap length kept.same_hex ∙ All-middle (λ s. IsHexKey s.hex_pubkey) xs ys keys);
      retired_stopped = h.retired_stopped;
    })
step-IsProper lib {p} h (retired s xs ys st q step e) =
    let stopped = subst (All IsStopped) q h.retired_stopped in
    let kept = Step-Kept lib step in
    subst IsProper (sym e) (record {
      sound = h.sound;
      tabled = Step-Tabled lib step h.tabled;
      lookup_keys = h.lookup_keys;
      session_keys = h.session_keys;
      retired_stopped =
          All-replace IsStopped xs ys s stopped
            (kept.stays_stopped (All-middle IsStopped xs ys stopped));
    })

-- In every state that the program can reach by keys of at most four bytes each, frames,
-- completions of bootstraps and handlers of its sessions in any order: the typed lines have at
-- most 515 bytes and are empty outside their mode, the relay table is well formed, every lookup
-- and running session has a hex key of 64 characters, and every retired session is stopped.
pub reachable-IsProper :
    (lib : Services) (now : Now) {p : Program} → ProgramSteps lib (initial now) p → IsProper p
reachable-IsProper lib now here = initial-IsProper now
reachable-IsProper lib now (next steps step) =
    step-IsProper lib (reachable-IsProper lib now steps) step
