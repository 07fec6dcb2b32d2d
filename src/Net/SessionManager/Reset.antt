-- ===== src/Net/SessionManager/Reset.antt =====
-- A relay table that is reset while sessions still run (src/main.cpp, src/net/session_manager.cpp).
use monitostr.Prelude.{
  ◌≡◌, refl, subst, ap, ◌∙◌, inl, inr, true, false, List, [], ◌∷◌, none, some, Text, text_eq,
  text_eq_iff, Has, arith, Bool-cases,
}
use monitostr.Model.RelayStats.{disconnected, find, reset}
use monitostr.Net.Services.{Services}
use monitostr.Net.RelaySession.{Session, Shared, Now, report}
use monitostr.Net.RelaySession.Handlers.{stop}
use monitostr.Net.RelaySession.Connecting.{status_of, status_of-report, status_of-report_other}
use monitostr.Net.SessionManager.{SessionManager, stop_each, stop_all}

reset_empty : (url : Text) (w : Shared) → status_of url (record w { stats = reset w.stats }) ≡ none
unfolding reset find status_of
reset_empty url w = refl

module _ (lib : Services) (now : Now) where
  stop_connected : (s : Session) (w : Shared) → s.ws_connected ≡ true → (stop lib now (s, w)).1 ≡ w
  unfolding stop
  stop_connected s w h = ground arith

  stop_unconnected :
      (s : Session) (w : Shared)
      → s.ws_connected ≡ false
      → (stop lib now (s, w)).1 ≡ report now disconnected [] s w
  unfolding stop
  stop_unconnected s w h = ground arith

  -- A relay that is down as disconnected stays so.
  stop-keeps_down :
      (url : Text) (s : Session) (w : Shared)
      → status_of url w ≡ some disconnected
      → status_of url (stop lib now (s, w)).1 ≡ some disconnected
  stop-keeps_down url s w h = elim (Bool-cases s.ws_connected) [
    | inl c ↦ ap (status_of url) (stop_connected s w c) ∙ h
    | inr c ↦
        ap (status_of url) (stop_unconnected s w c) ∙ (elim (Bool-cases (text_eq s.relay_url url)) [
          | inl same ↦
              subst (λ u. status_of u (report now disconnected [] s w) ≡ some disconnected)
                ((text_eq_iff s.relay_url url).0 same) (status_of-report now disconnected [] s w)
          | inr other ↦ status_of-report_other url now disconnected [] s w other ∙ h
        ])
  ]

  stop_each-keeps_down :
      (url : Text) (sessions : List Session) (w : Shared)
      → status_of url w ≡ some disconnected
      → status_of url (stop_each lib now sessions w).1 ≡ some disconnected
  unfolding stop_each
  stop_each-keeps_down url [] w h = h
  stop_each-keeps_down url (s ∷ sessions) w h =
      stop_each-keeps_down url sessions (stop lib now (s, w)).1 (stop-keeps_down url s w h)

  stop_each-puts_down :
      (t : Session) (sessions : List Session) (w : Shared)
      → Has t sessions
      → t.ws_connected ≡ false
      → status_of t.relay_url (stop_each lib now sessions w).1 ≡ some disconnected
  unfolding stop_each
  stop_each-puts_down t [] w h c = absurd h
  stop_each-puts_down t (s ∷ sessions) w (inl e) c =
      stop_each-keeps_down t.relay_url sessions (stop lib now (s, w)).1 (
        subst (λ r. status_of t.relay_url (stop lib now (r, w)).1 ≡ some disconnected) e
          (ap (status_of t.relay_url) (stop_unconnected t w c)
            ∙ status_of-report now disconnected [] t w))
  stop_each-puts_down t (s ∷ sessions) w (inr k) c =
      stop_each-puts_down t sessions (stop lib now (s, w)).1 k c

  -- If the table is reset while a session runs that is not connected, the table has no entry for
  -- its relay, and StopAll puts the relay back into the table as disconnected.
  pub reset-stop_all :
      (m : SessionManager) (t : Session)
      → Has t m.sessions
      → t.ws_connected ≡ false
      → let cleared : Shared = record (m.shared) { stats = reset m.shared.stats } in
        (status_of t.relay_url cleared ≡ none)
        × (status_of t.relay_url (stop_all lib now (record m { shared = cleared })).shared
            ≡ some disconnected)
  unfolding stop_all reset
  reset-stop_all m t h c =
      (reset_empty t.relay_url m.shared, stop_each-puts_down t m.sessions _ h c)
