-- ===== src/Examples/Events.antt =====
-- Instances of the theorems on the event handler, the frames and the screen.
use monitostr.Prelude.{
  ℕ, ◌+◌, ◌-◌, ◌*◌, ◌^◌, ◌≤◌, ◌<◌, ◌≡◌, ◌≢◌, ◌↔◌, refl, ◌&&◌, true, false, List, [], ◌∷◌, ◌++◌, map,
  Option, none, some, Text, codes, length, get_elem?, is_empty, starts_with, if◌then◌else◌, arith,
}
use monitostr.StringUtils.{to_lower_copy, trim_copy}
use monitostr.Model.LogBuffer.{LogEntry}
use monitostr.Model.RelayStats.{RelayStat, subscribed, disconnected, snapshot as relay_snapshot}
use monitostr.Net.RelaySession.{Shared}
use monitostr.Ui.Navigation.{NavigationState, logs, find_log_matches, advance_log_match}
use monitostr.Ui.Command.{auto, authenticates}
use monitostr.Ui.Render.{compute_relay_list_viewport, first_line}
use monitostr.Ui.Render.Context.{
  RenderContext, normal_mode, insert_mode, command_mode, selected_stat,
}
use monitostr.Ui.Render.Table.{Scale, shown_stats}
use monitostr.Ui.Render.Screen.{render_app}
use monitostr.Ui.Render.Screen.Secrets.{render_app-typed}
use monitostr.Ui.Render.Screen.Selected.{selected_stat-shown}
use monitostr.Ui.App.{
  App, Event, escape, enter, character, Host, submits, asks, pop_back, typed, max_input_length,
}
use monitostr.Ui.App.Handler.{on_event}
use monitostr.Ui.App.View.{frame, visible_logs}
use monitostr.Ui.App.Modes.{next_mode, on_event-mode}
use monitostr.Ui.App.Frames.{visible_logs-find_log_matches, hit_off_page}
use monitostr.Ui.App.Selection.{on_event-frame-selected}
use monitostr.Ui.App.Typing.{on_events, total, typed_key, pop_back-typed}
use monitostr.Examples.Fixtures.{fresh, host, shared, line}

-- A key, in two pieces.
abbrev pieces : List Text
pieces = codes " NSEC1" ∷ codes "qq" ∷ []

typed_key_example :
    let r =
      on_events host (character (codes "i") ∷ (map character pieces ++ enter ∷ [])) fresh shared in
    let key = trim_copy (total pieces) in
    (r.requests ≡ (
      if is_empty key
      then []
      else if starts_with (to_lower_copy key) (codes "nsec1") && host.can_auth
      then asks (authenticates key) ∷ []
      else submits key ∷ []))
    × (r.app ≡ record fresh { pending_g = false })
    × (r.logs ≡ shared.logs)
typed_key_example = typed_key host pieces fresh shared refl refl (omega arith)

on_event-mode_example :
    (on_event host (character (codes ":")) fresh shared).app.mode
    ≡ next_mode normal_mode (character (codes ":"))
on_event-mode_example = on_event-mode host (character (codes ":")) fresh shared

-- Three lines without the query and two with it.
abbrev entries : List LogEntry
entries =
    line (codes "a")
    ∷ line (codes "b")
    ∷ line (codes "c")
    ∷ line (codes "Xx")
    ∷ line (codes "x")
    ∷ []

query_given : codes "X" ≢ []
query_given = λ e. cc

visible_logs-find_log_matches_example :
    map (get_elem? entries) (find_log_matches entries (codes "X"))
    ≡ map some (visible_logs (codes "X") entries)
visible_logs-find_log_matches_example =
    visible_logs-find_log_matches (codes "X") entries query_given

abbrev searching : NavigationState
searching = record {
  active_pane = logs;
  selected_relay = 0;
  logs_scroll_lines = 0;
  logs_follow = true;
  pending_g = false;
  logs_search_query = codes "X";
  logs_search_hit_ordinal = 1;
}

stepped :
    (get_elem?
        (find_log_matches entries (codes "X"))
        (advance_log_match entries true searching).logs_search_hit_ordinal
      ≡ some 3)
    × (get_elem? entries 3 ≡ some (line (codes "Xx")))
    × ((advance_log_match entries true searching).logs_search_hit_ordinal + 3 ≤ 3)
    × ((advance_log_match entries true searching).logs_search_hit_ordinal + 1
        < length (visible_logs (codes "X") entries))
unfolding find_log_matches advance_log_match visible_logs to_lower_copy starts_with
    monitostr.Prelude.contains monitostr.Ui.Navigation.matches_from monitostr.Ui.Navigation.line_of
    monitostr.Ui.Navigation.next_ordinal monitostr.Ui.App.View.entries_with
    monitostr.Ui.App.View.searches monitostr.Ui.App.View.matches_here
stepped = (refl, refl, omega arith, omega arith)

hit_off_page_example :
    let n' = advance_log_match entries true searching in
    let shown = visible_logs (codes "X") entries in
    (get_elem? shown n'.logs_search_hit_ordinal ≡ some (line (codes "Xx")))
    × (n'.logs_search_hit_ordinal < first_line (length shown) 1 n'.logs_scroll_lines)
hit_off_page_example =
    hit_off_page entries true searching 3 1 (line (codes "Xx")) refl query_given stepped

-- U+00E9 in UTF-8.
abbrev e_acute : Text
e_acute = 0xc3 ∷ 0xa9 ∷ []

e_acute_given : e_acute ≢ []
e_acute_given = λ e. cc

pop_back-typed_example :
    (pop_back (typed (codes "caf") e_acute) ≡ codes "caf") ↔ (length e_acute ≡ 1)
pop_back-typed_example = pop_back-typed (codes "caf") e_acute (omega arith) e_acute_given

abbrev stat : RelayStat
stat = record {
  relay_url = codes "wss://a";
  status = disconnected;
  latency_ms = some 12;
  events_count = 3;
  supported_nips = [];
  latency_history_ms = 12 ∷ 14 ∷ [];
  last_error = [];
  connected_at = none;
}

abbrev one_row : Shared
one_row = record { stats = (codes "wss://a", stat) ∷ []; logs = none }

has_rows : 0 < length (relay_snapshot one_row.stats)
unfolding relay_snapshot monitostr.Model.RelayStats.values monitostr.Prelude.sort
    monitostr.Prelude.insert
has_rows = omega arith

on_event-frame-selected_example :
    (on_event host
      (character (codes "j"))
      (frame 100 40 (record fresh { selected_relay = 9 }) one_row).0
      one_row).app.selected_relay
    < length (relay_snapshot one_row.stats)
on_event-frame-selected_example =
    on_event-frame-selected 100 40 host (character (codes "j"))
      (record fresh { selected_relay = 9 }) one_row has_rows

abbrev context : RenderContext
context = record {
  compact = true;
  tiny = true;
  relay_rows = 8;
  log_lines = 6;
  mode = normal_mode;
  active_pane = logs;
  logs_follow = true;
  compact_mode = auto;
  npub_line = [];
  hex_line = [];
  input_npub = codes "nsec1qq";
  logs_search_query = [];
  command_line = [];
  selected_relay = 1;
  logs_scroll_lines = 0;
  total_logs = 5;
  aggregate = record { connected_relays = 0; errored_relays = 0; total_events = 3 };
  relay_stats = stat ∷ record stat { relay_url = codes "wss://b" } ∷ [];
  visible_logs = entries;
}

selected_stat-shown_example :
    let viewport = compute_relay_list_viewport 2 1 8 in
    (selected_stat context ≡ get_elem? context.relay_stats 1)
    × (viewport.start ≤ 1)
    × (get_elem? (shown_stats viewport context.relay_stats) (1 - viewport.start)
        ≡ selected_stat context)
selected_stat-shown_example = selected_stat-shown context (omega arith) (omega arith)

abbrev scale : Scale
scale v m h = v * h

render_app-typed_example :
    (context.mode ≢ insert_mode
      → render_app scale 1000 (record context { input_npub = codes "nsec1" })
        ≡ render_app scale 1000 context)
    × (context.mode ≢ command_mode
        → render_app scale 1000 (record context { command_line = codes "nsec1" })
          ≡ render_app scale 1000 context)
render_app-typed_example = render_app-typed scale 1000 context (codes "nsec1")
