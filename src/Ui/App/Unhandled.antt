-- ===== src/Ui/App/Unhandled.antt =====
-- The events that the handler of src/ui/app.cpp passes on.
use monitostr.Prelude.{◌≡◌, refl, ap, ◌∙◌, true, false, codes, arith}
use monitostr.Net.RelaySession.{Shared}
use monitostr.Ui.Navigation.{jump_to_top}
use monitostr.Ui.Render.Context.{normal_mode}
use monitostr.Ui.App.{App, Event, escape, character, Host, takes, passes}
use monitostr.Ui.App.Handler.{
  press, navigates, navigation_of, apply_navigation_state, on_command, on_search, on_insert,
  on_event, finish_command,
}
use monitostr.Ui.App.Keys.{Key, to_insert, unbound, key_of, key_of_letter}

press-unhandled :
    (key : Key) (a : App) (w : Shared)
    → (press key a w).handled ≡ false
    → press key a w ≡ passes a w.logs
unfolding press navigates takes passes
press-unhandled to_insert a w h = cc
press-unhandled key a w h = ground arith

on_search-unhandled :
    (event : Event) (a : App) (w : Shared)
    → (on_search event a w).handled ≡ false
    → on_search event a w ≡ passes a w.logs
unfolding on_search navigates takes passes
on_search-unhandled escape a w h = cc
on_search-unhandled event a w h = ground arith

on_insert-unhandled :
    (host : Host) (event : Event) (a : App) (w : Shared)
    → (on_insert host event a w).handled ≡ false
    → on_insert host event a w ≡ passes a w.logs
unfolding on_insert takes passes
on_insert-unhandled host escape a w h = cc
on_insert-unhandled host event a w h = ground arith

on_command-unhandled :
    (host : Host) (event : Event) (a : App) (w : Shared)
    → (on_command host event a w).handled ≡ false
    → on_command host event a w ≡ passes a w.logs
unfolding on_command finish_command takes passes
on_command-unhandled host escape a w h = cc
on_command-unhandled host event a w h = ground arith

-- An event that the handler says it did not take leaves the members and the log as they were and
-- asks for nothing.
pub on_event-unhandled :
    (host : Host) (event : Event) (a : App) (w : Shared)
    → (on_event host event a w).handled ≡ false
    → on_event host event a w ≡ passes a w.logs
unfolding on_event
on_event-unhandled host event a w h = ground (
  arith,
  press-unhandled (key_of event) a w,
  on_search-unhandled event a w,
  on_insert-unhandled host event a w,
  on_command-unhandled host event a w,
)

abbrev pub letter_g_event : Event
letter_g_event = character (codes "g")

unbound_lem :
    (host : Host) (event : Event) (a : App) (w : Shared)
    → a.mode ≡ normal_mode
    → key_of event ≡ unbound
    → (on_event host event a w).app ≡ a
unfolding on_event press passes
unbound_lem host event a w m e = ground arith

first_g :
    (host : Host) (a : App) (w : Shared)
    → a.mode ≡ normal_mode
    → a.pending_g ≡ false
    → (on_event host letter_g_event a w).app ≡ record a { pending_g = true }
unfolding on_event press key_of key_of_letter navigates navigation_of apply_navigation_state takes
first_g host a w m p = ground arith

second_g :
    (host : Host) (a : App) (w : Shared)
    → a.mode ≡ normal_mode
    → a.pending_g ≡ true
    → (on_event host letter_g_event a w).app
      ≡ record a { selected_relay = 0; logs_scroll_lines = 0; pending_g = false }
unfolding on_event press key_of key_of_letter navigates navigation_of apply_navigation_state takes
    jump_to_top
second_g host a w m p = ground arith

-- In normal mode with no g pending, an event that is bound to nothing between two g does not
-- part them: the selection and the scroll position are 0 after the three events.
pub g-unbound-g :
    (host : Host) (event : Event) (a : App) (w : Shared)
    → a.mode ≡ normal_mode
    → a.pending_g ≡ false
    → key_of event ≡ unbound
    → let first = (on_event host letter_g_event a w).app in
      let second = (on_event host event first w).app in
      let third = (on_event host letter_g_event second w).app in
      (second ≡ record a { pending_g = true })
      × (third.selected_relay ≡ 0)
      × (third.logs_scroll_lines ≡ 0)
g-unbound-g host event a w m p e =
    let first = first_g host a w m p in
    let second =
      ap (λ b. (on_event host event b w).app) first
      ∙ unbound_lem host event (record a { pending_g = true }) w m e in
    let third =
      ap (λ b. (on_event host letter_g_event b w).app) second
      ∙ second_g host (record a { pending_g = true }) w m refl in
    (second, ap (λ b. b.selected_relay) third, ap (λ b. b.logs_scroll_lines) third)
