-- ===== src/Ui/App/View.antt =====
-- The renderer lambda of src/ui/app.cpp: what it changes of App and what it hands to RenderApp.
use monitostr.Prelude.{
  ℕ, ◌-◌, ◌/◌, min, max, Bool, true, false, ◌&&◌, List, [], ◌∷◌, ◌++◌, Text, is_empty, length, ltb,
  leb, ◌==◌, if◌then◌else◌,
}
use monitostr.StringUtils.{to_lower}
use monitostr.Model.LogBuffer.{LogEntry}
use monitostr.Model.RelayStats.{aggregate, snapshot as relay_snapshot}
use monitostr.Net.RelaySession.{Shared}
use monitostr.Ui.Command.{CompactMode, auto, force_compact, force_wide}
use monitostr.Ui.Render.{truncate_with_ellipsis}
use monitostr.Ui.Render.Context.{RenderContext}
use monitostr.Ui.App.{App}
use monitostr.Ui.App.Handler.{log_entries}

unfoldable pub is_compact : CompactMode → ℕ → Bool
is_compact auto dimx = ltb dimx 140
is_compact force_compact dimx = true
is_compact force_wide dimx = false

-- `std::max(8, std::min(16, dimy - 16))`: a difference below 0 gives 8 as 0 does.
unfoldable pub relay_rows : Bool → ℕ → ℕ
relay_rows compact dimy = max 8 (min 16 (dimy - (if compact then 16 else 18)))

unfoldable pub log_lines : ℕ → ℕ
log_lines dimy = max 6 (min 12 (dimy / 3))

-- The last page of a log, for a follower.
unfoldable pub followed : Bool → ℕ → ℕ → ℕ → ℕ
followed logs_follow count lines scroll =
    if logs_follow then if ltb lines count then count - lines else 0 else scroll

unfoldable pub clamped_selection : ℕ → ℕ → ℕ
clamped_selection count selected_relay =
    if ltb 0 count && leb count selected_relay then count - 1 else selected_relay

-- The text matches at the start, with letters of either case alike.
unfoldable pub matches_here : Text → Text → Bool
matches_here line [] = true
matches_here [] (q ∷ query) = false
matches_here (c ∷ line) (q ∷ query) = to_lower c == to_lower q && matches_here line query

-- std::search with that comparison finds the query.
unfoldable pub searches : Text → Text → Bool
unfolding matches_here
searches [] query = matches_here [] query
searches (c ∷ line) query = if matches_here (c ∷ line) query then true else searches line query

-- The loop over the log.
unfoldable pub entries_with : Text → List LogEntry → List LogEntry
unfolding searches
entries_with query [] = []
entries_with query (entry ∷ entries) =
    let rest = entries_with query entries in
    if searches (entry.timestamp ++ 32 ∷ entry.message) query then entry ∷ rest else rest

unfoldable pub visible_logs : Text → List LogEntry → List LogEntry
unfolding entries_with
visible_logs query entries = if is_empty query then entries else entries_with query entries

-- What a frame on a terminal of `dimx` columns and `dimy` lines leaves of App.
unfoldable pub settled : ℕ → ℕ → App → Shared → App
unfolding visible_logs followed clamped_selection log_lines log_entries
settled dimx dimy a w =
    let lines = log_lines dimy in
    let entries = log_entries w.logs in
    let scroll = followed a.logs_follow (length entries) lines a.logs_scroll_lines in
    record a {
      selected_relay = clamped_selection (length (relay_snapshot w.stats)) a.selected_relay;
      logs_scroll_lines =
          followed a.logs_follow (length (visible_logs a.logs_search_query entries)) lines scroll;
    }

-- The context of the frame, of the members as `settled` leaves them.
unfoldable pub context_of : ℕ → ℕ → App → Shared → RenderContext
unfolding is_compact relay_rows log_lines visible_logs log_entries
context_of dimx dimy a w =
    let compact = is_compact a.compact_mode dimx in
    let tiny = ltb dimx 110 in
    let entries = log_entries w.logs in
    record {
      compact = compact;
      tiny = tiny;
      relay_rows = relay_rows compact dimy;
      log_lines = log_lines dimy;
      mode = a.mode;
      active_pane = a.active_pane;
      logs_follow = a.logs_follow;
      compact_mode = a.compact_mode;
      npub_line =
          if compact
          then truncate_with_ellipsis a.header_context.npub (if tiny then 40 else 70)
          else a.header_context.npub;
      hex_line =
          if compact
          then truncate_with_ellipsis a.header_context.hex_pubkey (if tiny then 28 else 48)
          else a.header_context.hex_pubkey;
      input_npub = a.input_npub;
      logs_search_query = a.logs_search_query;
      command_line = a.command_line;
      selected_relay = a.selected_relay;
      logs_scroll_lines = a.logs_scroll_lines;
      total_logs = length entries;
      aggregate = aggregate w.stats;
      relay_stats = relay_snapshot w.stats;
      visible_logs = visible_logs a.logs_search_query entries;
    }

-- One frame: the members that it leaves, and its context.
unfoldable pub frame : ℕ → ℕ → App → Shared → App × RenderContext
unfolding settled context_of
frame dimx dimy a w = let a' = settled dimx dimy a w in (a', context_of dimx dimy a' w)
