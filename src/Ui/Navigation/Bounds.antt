-- ===== src/Ui/Navigation/Bounds.antt =====
-- The relay selection stays on the table (src/ui/navigation_controller.cpp).
use monitostr.Prelude.{ℕ, ◌<◌, ◌≡◌, ◌⊎◌, Bool, List, arith}
use monitostr.Model.LogBuffer.{LogEntry}
use monitostr.Ui.Navigation.{
  NavigationState, jump_to_top, jump_to_bottom, jump_to_pane_start, jump_to_pane_end,
  move_selection_down, move_selection_up, move_page_down, move_page_up, advance_log_match,
}

-- The moves of the controller, with what they read of the table and of the log.
pub data Move : Type 0 where
  to_top to_pane_start down up page_down page_up to_bottom to_pane_end : Move
  to_hit : List LogEntry → Bool → Move

unfoldable pub move : ℕ → ℕ → ℕ → Move → NavigationState → NavigationState
move relay_count log_count page to_top s = jump_to_top s
move relay_count log_count page to_pane_start s = jump_to_pane_start s
move relay_count log_count page down s = move_selection_down relay_count s
move relay_count log_count page up s = move_selection_up s
move relay_count log_count page page_down s = move_page_down relay_count page s
move relay_count log_count page page_up s = move_page_up page s
move relay_count log_count page to_bottom s = jump_to_bottom relay_count log_count page s
move relay_count log_count page to_pane_end s = jump_to_pane_end relay_count log_count page s
move relay_count log_count page (to_hit entries forward) s = advance_log_match entries forward s

-- A row of the table is selected, or the first one of an empty table.
abbrev pub OnTable : ℕ → NavigationState → Type 0
OnTable relay_count s = (s.selected_relay < relay_count) ⊎ (s.selected_relay ≡ 0)

-- If the selected row is in the relay table, or is row 0, it is so after every navigation command.
pub move-OnTable :
    (relay_count log_count page : ℕ) (m : Move) (s : NavigationState)
    → OnTable relay_count s
    → OnTable relay_count (move relay_count log_count page m s)
unfolding move jump_to_top jump_to_bottom jump_to_pane_start jump_to_pane_end move_selection_down
    move_selection_up move_page_down move_page_up advance_log_match
move-OnTable relay_count log_count page to_top s h = ground arith
move-OnTable relay_count log_count page m s h = ground arith
