-- ===== src/Ui/App/Selection.antt =====
-- The selected row under the events and frames of src/ui/app.cpp.
use monitostr.Prelude.{ℕ, ◌≡◌, ◌<◌, length, refl, arith}
use monitostr.Model.RelayStats.{snapshot as relay_snapshot}
use monitostr.Net.RelaySession.{Shared}
use monitostr.Ui.Navigation.{
  jump_to_top, jump_to_bottom, jump_to_pane_start, jump_to_pane_end, move_selection_down,
  move_selection_up, move_page_down, move_page_up, advance_log_match,
}
use monitostr.Ui.App.{App, Event, escape, Host, takes, passes}
use monitostr.Ui.App.Handler.{
  press, navigates, navigation_of, apply_navigation_state, on_command, on_search, on_insert,
  on_event, finish_command,
}
use monitostr.Ui.App.Keys.{Key, to_insert, key_of}
use monitostr.Ui.App.View.{clamped_selection, settled, frame}

press-selected :
    (key : Key) (a : App) (w : Shared)
    → a.selected_relay < length (relay_snapshot w.stats)
    → (press key a w).app.selected_relay < length (relay_snapshot w.stats)
unfolding press navigates navigation_of takes passes apply_navigation_state jump_to_top
    jump_to_bottom jump_to_pane_start jump_to_pane_end move_selection_down move_selection_up
    move_page_down move_page_up advance_log_match
press-selected to_insert a w h = h
press-selected key a w h = ground arith

on_search-selected :
    (event : Event) (a : App) (w : Shared)
    → (on_search event a w).app.selected_relay ≡ a.selected_relay
unfolding on_search navigates navigation_of takes passes apply_navigation_state
on_search-selected escape a w = refl
on_search-selected event a w = ground arith

on_insert-selected :
    (host : Host) (event : Event) (a : App) (w : Shared)
    → (on_insert host event a w).app.selected_relay ≡ a.selected_relay
unfolding on_insert takes passes
on_insert-selected host escape a w = refl
on_insert-selected host event a w = ground arith

on_command-selected :
    (host : Host) (event : Event) (a : App) (w : Shared)
    → (on_command host event a w).app.selected_relay ≡ a.selected_relay
unfolding on_command finish_command takes passes
on_command-selected host escape a w = refl
on_command-selected host event a w = ground arith

pub on_event-selected :
    (host : Host) (event : Event) (a : App) (w : Shared)
    → a.selected_relay < length (relay_snapshot w.stats)
    → (on_event host event a w).app.selected_relay < length (relay_snapshot w.stats)
unfolding on_event
on_event-selected host event a w h = ground (
  arith,
  press-selected (key_of event) a w,
  on_search-selected event a w,
  on_insert-selected host event a w,
  on_command-selected host event a w,
)

settled-selected :
    (dimx dimy : ℕ) (a : App) (w : Shared)
    → 0 < length (relay_snapshot w.stats)
    → (settled dimx dimy a w).selected_relay < length (relay_snapshot w.stats)
unfolding settled clamped_selection
settled-selected dimx dimy a w h = ground arith

-- If the relay table is not empty, then after a frame and any event the selected row is in the
-- table.
pub on_event-frame-selected :
    (dimx dimy : ℕ) (host : Host) (event : Event) (a : App) (w : Shared)
    → 0 < length (relay_snapshot w.stats)
    → (on_event host event (frame dimx dimy a w).0 w).app.selected_relay
      < length (relay_snapshot w.stats)
unfolding frame
on_event-frame-selected dimx dimy host event a w h =
    on_event-selected host event (settled dimx dimy a w) w (settled-selected dimx dimy a w h)
