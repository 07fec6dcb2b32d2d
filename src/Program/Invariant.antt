-- ===== src/Program/Invariant.antt =====
-- What stays true of the program of src/main.cpp in all its steps.
use monitostr.Prelude.{
  ◌≡◌, inl, inr, true, List, [], ◌∷◌, Option, some, Text, codes, length, All, All-append,
  Bool-cases, Option-cases,
}
use monitostr.Model.LogBuffer.{LogLevel, info, error}
use monitostr.Model.RelayStats.{reset}
use monitostr.Nip19.Keys.{decode_npub_to_hex, DecodeResult, EncodeResult, decode_nsec_to_hex}
use monitostr.Nip19.Keys.RoundTrip.{IsResult, decode-IsResult}
use monitostr.Nostr.AuthKey.{AuthKey, from_hex_privkey}
use monitostr.Net.Services.{Services}
use monitostr.Net.RelaySession.{Session, Now, log}
use monitostr.Net.RelaySession.Table.{Tabled}
use monitostr.Net.SessionManager.{update_auth_key, give_key, has_active_sessions}
use monitostr.Net.SessionManager.Start.{IsStopped}
use monitostr.Ui.Command.{exits, authenticates, copies, saves}
use monitostr.Ui.App.{Event, Host, Request, submits, asks, set_header_context}
use monitostr.Ui.App.Invariant.{IsSound, IsUtf8, on_event-IsSound}
use monitostr.Ui.App.Handler.{on_event}
use monitostr.Program.{
  Program, say, show_key, reset_stats, resolve_relays, submit_decoded, submit_npub, monitor_decoded,
  monitor_encoded, submit_private, submit_nsec, take_key, serve, serve_all, on_terminal,
}

-- The hexadecimal text of 32 bytes.
abbrev pub IsHexKey : Text → Type 0
IsHexKey hex = length hex ≡ 64

pub record IsProper (p : Program) : Type 0 where
  pub sound : IsSound p.app
  pub tabled : Tabled p.manager.shared
  pub lookup_keys : All (λ l. IsHexKey l.hex_pubkey) p.lookups
  pub session_keys : All (λ s. IsHexKey s.hex_pubkey) p.manager.sessions
  pub retired_stopped : All IsStopped p.manager.retired

pub say-IsProper :
    (now : Now) (level : LogLevel) (message : Text) (p : Program)
    → IsProper p
    → IsProper (say now level message p)
unfolding say log
say-IsProper now level message p h = record {
  sound = h.sound;
  tabled = h.tabled;
  lookup_keys = h.lookup_keys;
  session_keys = h.session_keys;
  retired_stopped = h.retired_stopped;
}

show_key-IsProper : (npub hex : Text) (p : Program) → IsProper p → IsProper (show_key npub hex p)
unfolding show_key set_header_context
show_key-IsProper npub hex p h = record {
  sound = record {
    input_short = h.sound.input_short;
    command_short = h.sound.command_short;
    query_short = h.sound.query_short;
    held = h.sound.held;
  };
  tabled = h.tabled;
  lookup_keys = h.lookup_keys;
  session_keys = h.session_keys;
  retired_stopped = h.retired_stopped;
}

reset_stats-IsProper : (now : Now) (p : Program) → IsProper p → IsProper (reset_stats now p)
unfolding reset_stats reset
reset_stats-IsProper now p h = say-IsProper now info (codes "Relay stats reset") _ (record {
  sound = h.sound;
  tabled = tt;
  lookup_keys = h.lookup_keys;
  session_keys = h.session_keys;
  retired_stopped = h.retired_stopped;
})

resolve_relays-IsProper :
    (now : Now) (hex : Text) (p : Program)
    → IsHexKey hex
    → IsProper p
    → IsProper (resolve_relays now hex p)
unfolding resolve_relays
resolve_relays-IsProper now hex p k h = record {
  sound = h.sound;
  tabled = h.tabled;
  lookup_keys = All-append (λ l. IsHexKey l.hex_pubkey) p.lookups _ h.lookup_keys (k, tt);
  session_keys = h.session_keys;
  retired_stopped = h.retired_stopped;
}

-- The text of a successful decoding.
decoded-IsHexKey : (r : DecodeResult) → IsResult r → r.ok ≡ true → IsHexKey r.hex
decoded-IsHexKey r (inl (ok, size, digits, clean)) h = size
decoded-IsHexKey r (inr (bad, nothing, text)) h = cc

submit_decoded-IsProper :
    (now : Now) (npub : Text) (r : DecodeResult) (p : Program)
    → IsResult r
    → IsProper p
    → IsProper (submit_decoded now npub r p)
unfolding submit_decoded
submit_decoded-IsProper now npub r p d h = elim (Bool-cases r.ok) [
  | inl e ↦
      rw (e, submit_decoded)
        (resolve_relays-IsProper now r.hex _ (decoded-IsHexKey r d e) (
          reset_stats-IsProper now _
            (say-IsProper now info _ _ (show_key-IsProper npub r.hex p h))))
  | inr e ↦ rw (e, submit_decoded) (say-IsProper now error _ p h)
]

monitor_decoded-IsProper :
    (now : Now) (npub : Text) (r : DecodeResult) (p : Program)
    → IsResult r
    → IsProper p
    → IsProper (monitor_decoded now npub r p)
unfolding monitor_decoded
monitor_decoded-IsProper now npub r p d h = elim (Bool-cases r.ok) [
  | inl e ↦
      rw (e, monitor_decoded)
        (resolve_relays-IsProper now r.hex _ (decoded-IsHexKey r d e)
          (reset_stats-IsProper now _ (show_key-IsProper npub r.hex p h)))
  | inr e ↦ rw (e, monitor_decoded) (say-IsProper now error _ p h)
]

monitor_encoded-IsProper :
    (now : Now) (r : EncodeResult) (p : Program) → IsProper p → IsProper (monitor_encoded now r p)
unfolding monitor_encoded
monitor_encoded-IsProper now r p h = elim (Bool-cases r.ok) [
  | inl e ↦
      rw (e, monitor_encoded)
        (monitor_decoded-IsProper now r.npub (decode_npub_to_hex r.npub) _
          (decode-IsResult r.npub).0 (say-IsProper now info _ p h))
  | inr e ↦ rw (e, monitor_encoded) (say-IsProper now error _ p h)
]

give_key-IsHexKey :
    (lib : Services) (now : Now) (key : Option AuthKey) (sessions : List Session)
    → All (λ s. IsHexKey s.hex_pubkey) sessions
    → All (λ s. IsHexKey s.hex_pubkey) (give_key lib now key sessions)
unfolding give_key
give_key-IsHexKey lib now key [] h = tt
give_key-IsHexKey lib now key (s ∷ sessions) h = (h.0, give_key-IsHexKey lib now key sessions h.1)

update_auth_key-IsProper :
    (lib : Services) (now : Now) (key : Option AuthKey) (p : Program)
    → IsProper p
    → IsProper (record p { manager = update_auth_key lib now key p.manager })
unfolding update_auth_key log
update_auth_key-IsProper lib now key p h = record {
  sound = h.sound;
  tabled = h.tabled;
  lookup_keys = h.lookup_keys;
  session_keys = give_key-IsHexKey lib now key p.manager.sessions h.session_keys;
  retired_stopped = h.retired_stopped;
}

set_key-IsProper :
    (key : Option AuthKey) (p : Program) → IsProper p → IsProper (record p { auth_key = key })
set_key-IsProper key p h = record {
  sound = h.sound;
  tabled = h.tabled;
  lookup_keys = h.lookup_keys;
  session_keys = h.session_keys;
  retired_stopped = h.retired_stopped;
}

take_key-IsProper :
    (lib : Services) (now : Now) (key : AuthKey) (p : Program)
    → IsProper p
    → IsProper (take_key lib now key p)
unfolding take_key has_active_sessions
take_key-IsProper lib now key p h =
    let told = say-IsProper now info _ _ (set_key-IsProper (some key) p h) in
    elim (Bool-cases (has_active_sessions p.manager)) [
      | inl e ↦ rw (e, take_key) (update_auth_key-IsProper lib now (some key) _ told)
      | inr e ↦ rw (e, take_key) (monitor_encoded-IsProper now _ _ told)
    ]

submit_private-IsProper :
    (lib : Services) (now : Now) (r : DecodeResult) (p : Program)
    → IsProper p
    → IsProper (submit_private lib now r p)
unfolding submit_private
submit_private-IsProper lib now r p h = elim (Bool-cases r.ok) [
  | inl e ↦ elim (Option-cases (from_hex_privkey lib now.signing.context r.hex)) [
    | inl f ↦ rw (e, f, submit_private) (say-IsProper now error _ p h)
    | inr (key, f) ↦ rw (e, f, submit_private) (take_key-IsProper lib now key p h)
  ]
  | inr e ↦ rw (e, submit_private) (say-IsProper now error _ p h)
]

serve-IsProper :
    (lib : Services) (now : Now) (request : Request) (p : Program)
    → IsProper p
    → IsProper (serve lib now request p)
unfolding serve submit_npub submit_nsec
serve-IsProper lib now (submits npub) p h =
    submit_decoded-IsProper now npub (decode_npub_to_hex npub) _ (decode-IsResult npub).0
      (say-IsProper now info _ p h)
serve-IsProper lib now (asks exits) p h = record {
  sound = h.sound;
  tabled = h.tabled;
  lookup_keys = h.lookup_keys;
  session_keys = h.session_keys;
  retired_stopped = h.retired_stopped;
}
serve-IsProper lib now (asks (authenticates nsec)) p h =
    submit_private-IsProper lib now (decode_nsec_to_hex nsec) p h
serve-IsProper lib now (asks (copies text)) p h = h
serve-IsProper lib now (asks (saves path text)) p h = h

serve_all-IsProper :
    (lib : Services) (now : Now) (requests : List Request) (p : Program)
    → IsProper p
    → IsProper (serve_all lib now requests p)
unfolding serve_all
serve_all-IsProper lib now [] p h = h
serve_all-IsProper lib now (request ∷ requests) p h =
    serve_all-IsProper lib now requests (serve lib now request p)
      (serve-IsProper lib now request p h)

pub on_terminal-IsProper :
    (lib : Services) (now : Now) (host : Host) (event : Event) (p : Program)
    → IsUtf8 event
    → IsProper p
    → IsProper (on_terminal lib now host event p)
unfolding on_terminal
on_terminal-IsProper lib now host event p u h =
    serve_all-IsProper lib now (on_event host event p.app p.manager.shared).requests _ (record {
      sound = on_event-IsSound host event p.app p.manager.shared u h.sound;
      tabled = h.tabled;
      lookup_keys = h.lookup_keys;
      session_keys = h.session_keys;
      retired_stopped = h.retired_stopped;
    })
