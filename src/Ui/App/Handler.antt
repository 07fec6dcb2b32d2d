-- ===== src/Ui/App/Handler.antt =====
-- The event handler of src/ui/app.cpp, one function for each mode.
use monitostr.Prelude.{
  ℕ, true, false, not, ◌&&◌, List, [], ◌∷◌, map, Option, none, some, Text, is_empty, length,
  get_elem?, if◌then◌else◌,
}
use monitostr.StringUtils.{trim_copy}
use monitostr.Model.LogBuffer.{LogBuffer, LogEntry, snapshot}
use monitostr.Model.RelayStats.{RelayStat, RelayStats, snapshot as relay_snapshot}
use monitostr.Net.RelaySession.{Shared}
use monitostr.Ui.Navigation.{
  relays, logs, NavigationState, jump_to_top, jump_to_bottom, jump_to_pane_start, jump_to_pane_end,
  move_selection_down, move_selection_up, move_page_down, move_page_up, advance_log_match,
}
use monitostr.Ui.Command.{CommandState, Environment, authenticates, Outcome, execute_command}
use monitostr.Ui.Render.Context.{normal_mode, insert_mode, search_mode, command_mode}
use monitostr.Ui.App.{
  App, Event, escape, enter, backspace, character, Host, Request, submits, asks, Reaction, takes,
  passes, pop_back, typed,
}
use monitostr.Ui.App.Report.{looks_like_nsec_input, format_relay_report}
use monitostr.Ui.App.Keys.{
  Key, key_of, to_insert, to_command, to_search, left_pane, right_pane, toggle_follow, letter_g,
  bottom, pane_start, pane_end, next_hit, previous_hit, down, up, forward_page, back_page, cancel,
  unbound,
}

abbrev pub log_page_lines : ℕ
log_page_lines = 8

-- The row of the snapshot that is selected.
unfoldable pub selected : App → RelayStats → Option RelayStat
selected a stats = get_elem? (relay_snapshot stats) a.selected_relay

unfoldable pub environment : Host → App → Shared → Environment
unfolding selected
environment host a w = record {
  can_exit = host.can_exit;
  can_auth = host.can_auth;
  copy_text = host.copy_text;
  selected_relay_text = elim (selected a w.stats) [ none ↦ none | some stat ↦ some stat.relay_url ];
  selected_relay_report = elim (selected a w.stats) [
    | none ↦ none
    | some stat ↦ some (format_relay_report host.steady stat)
  ];
  save_text = host.save_text;
}

unfoldable pub command_state : App → CommandState
command_state a = record {
  logs_follow = a.logs_follow;
  compact_mode = a.compact_mode;
  logs_search_query = a.logs_search_query;
  logs_search_hit_ordinal = a.logs_search_hit_ordinal;
  logs_scroll_lines = a.logs_scroll_lines;
}

unfoldable pub finish_command : Outcome → App → Reaction
unfolding takes
finish_command r a =
    takes
      (record a {
        logs_follow = r.state.logs_follow;
        compact_mode = r.state.compact_mode;
        logs_search_query = r.state.logs_search_query;
        logs_search_hit_ordinal = r.state.logs_search_hit_ordinal;
        logs_scroll_lines = r.state.logs_scroll_lines;
        command_line = [];
        mode = normal_mode;
        pending_g = false;
      })
      r.logs (map asks r.effects)

-- Command mode.
unfoldable pub on_command : Host → Event → App → Shared → Reaction
unfolding takes passes environment command_state finish_command
on_command host escape a w =
    takes (record a { command_line = []; mode = normal_mode; pending_g = false }) w.logs []
on_command host enter a w =
    finish_command
      (execute_command host.now (environment host a w) a.command_line (command_state a) w.logs) a
on_command host backspace a w =
    takes (record a { command_line = pop_back a.command_line }) w.logs []
on_command host (character s) a w =
    takes (record a { command_line = typed a.command_line s }) w.logs []
on_command host _ a w = passes a w.logs

unfoldable pub navigation_of : App → NavigationState
navigation_of a = record {
  active_pane = a.active_pane;
  selected_relay = a.selected_relay;
  logs_scroll_lines = a.logs_scroll_lines;
  logs_follow = a.logs_follow;
  pending_g = a.pending_g;
  logs_search_query = a.logs_search_query;
  logs_search_hit_ordinal = a.logs_search_hit_ordinal;
}

unfoldable pub apply_navigation_state : NavigationState → App → App
apply_navigation_state n a = record a {
  active_pane = n.active_pane;
  selected_relay = n.selected_relay;
  logs_scroll_lines = n.logs_scroll_lines;
  logs_follow = n.logs_follow;
  pending_g = n.pending_g;
  logs_search_query = n.logs_search_query;
  logs_search_hit_ordinal = n.logs_search_hit_ordinal;
}

-- The navigation state is written back and the event is taken.
unfoldable pub navigates : NavigationState → App → Shared → Reaction
unfolding apply_navigation_state takes
navigates n a w = takes (apply_navigation_state n a) w.logs []

-- Search mode.
unfoldable pub on_search : Event → App → Shared → Reaction
unfolding navigates navigation_of passes
on_search escape a w =
    navigates (record (navigation_of a) { pending_g = false }) (record a { mode = normal_mode }) w
on_search enter a w =
    navigates (record (navigation_of a) { logs_search_hit_ordinal = 0; pending_g = false })
      (record a { mode = normal_mode }) w
on_search backspace a w =
    navigates (record (navigation_of a) { logs_search_query = pop_back a.logs_search_query }) a w
on_search (character s) a w =
    navigates (record (navigation_of a) { logs_search_query = typed a.logs_search_query s }) a w
on_search _ a w = passes a w.logs

-- Where a key that was entered goes: the trimmed input of insert mode.
unfoldable pub submission : Host → Text → List Request
submission host submitted_input =
    if is_empty submitted_input
    then []
    else if looks_like_nsec_input submitted_input && host.can_auth
    then asks (authenticates submitted_input) ∷ []
    else submits submitted_input ∷ []

-- Insert mode.
unfoldable pub on_insert : Host → Event → App → Shared → Reaction
unfolding takes passes submission
on_insert host escape a w =
    takes (record a { input_npub = []; mode = normal_mode; pending_g = false }) w.logs []
on_insert host enter a w =
    takes (record a { input_npub = []; mode = normal_mode; pending_g = false }) w.logs
      (submission host (trim_copy a.input_npub))
on_insert host backspace a w = takes (record a { input_npub = pop_back a.input_npub }) w.logs []
on_insert host (character s) a w = takes (record a { input_npub = typed a.input_npub s }) w.logs []
on_insert host _ a w = passes a w.logs

-- `log_buffer_ ? log_buffer_->Snapshot() : {}`.
unfoldable pub log_entries : Option LogBuffer → List LogEntry
log_entries none = []
log_entries (some b) = snapshot b

-- Normal mode. From the move to the last page on, the state `n` has no `g` pending.
unfoldable pub press : Key → App → Shared → Reaction
unfolding navigates navigation_of passes log_entries
press to_insert a w =
    navigates (record (navigation_of a) { pending_g = false }) (record a { mode = insert_mode }) w
press to_command a w =
    navigates (record (navigation_of a) { pending_g = false })
      (record a { mode = command_mode; command_line = [] }) w
press to_search a w =
    navigates
      (record (navigation_of a) { active_pane = logs; logs_follow = false; pending_g = false })
      (record a { mode = search_mode }) w
press left_pane a w =
    navigates (record (navigation_of a) { active_pane = relays; pending_g = false }) a w
press right_pane a w =
    navigates (record (navigation_of a) { active_pane = logs; pending_g = false }) a w
press toggle_follow a w =
    navigates (record (navigation_of a) { logs_follow = not a.logs_follow; pending_g = false }) a w
press letter_g a w =
    navigates
      (if a.pending_g
        then jump_to_top (navigation_of a)
        else record (navigation_of a) { pending_g = true })
      a w
press bottom a w =
    let n = record (navigation_of a) { pending_g = false } in
    navigates
      (jump_to_bottom (length (relay_snapshot w.stats)) (length (log_entries w.logs)) log_page_lines
        n)
      a w
press pane_start a w =
    let n = record (navigation_of a) { pending_g = false } in navigates (jump_to_pane_start n) a w
press pane_end a w =
    let n = record (navigation_of a) { pending_g = false } in
    navigates
      (jump_to_pane_end (length (relay_snapshot w.stats)) (length (log_entries w.logs))
        log_page_lines n)
      a w
press next_hit a w =
    let n = record (navigation_of a) { pending_g = false } in
    navigates (advance_log_match (log_entries w.logs) true n) a w
press previous_hit a w =
    let n = record (navigation_of a) { pending_g = false } in
    navigates (advance_log_match (log_entries w.logs) false n) a w
press down a w =
    let n = record (navigation_of a) { pending_g = false } in
    navigates (move_selection_down (length (relay_snapshot w.stats)) n) a w
press up a w =
    let n = record (navigation_of a) { pending_g = false } in navigates (move_selection_up n) a w
press forward_page a w =
    let n = record (navigation_of a) { pending_g = false } in
    navigates (move_page_down (length (relay_snapshot w.stats)) log_page_lines n) a w
press back_page a w =
    let n = record (navigation_of a) { pending_g = false } in
    navigates (move_page_up log_page_lines n) a w
press cancel a w =
    navigates (record (navigation_of a) { pending_g = false }) (record a { mode = normal_mode }) w
press unbound a w = passes a w.logs

-- The handler.
unfoldable pub on_event : Host → Event → App → Shared → Reaction
unfolding on_command on_search on_insert press key_of
on_event host event a w = elim a.mode [
  | command_mode ↦ on_command host event a w
  | search_mode ↦ on_search event a w
  | insert_mode ↦ on_insert host event a w
  | normal_mode ↦ press (key_of event) a w
]
