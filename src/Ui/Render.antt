-- ===== src/Ui/Render.antt =====
-- The texts and numbers that src/ui/ui_renderer.cpp computes before it draws.
pub mod Viewport
pub mod Context
pub mod Dom
pub mod Parts
pub mod Logs
pub mod Table
pub mod Screen
use monitostr.Prelude.{
  ℕ, suc, ◌+◌, ◌-◌, ◌/◌, ◌%◌, ◌^◌, min, Bool, true, false, List, [], ◌∷◌, ◌++◌, Option, none, some,
  Text, codes, ℤ, pos, negsuc, to_string, is_empty, length, take, drop, ltb, leb, ◌==◌,
  if◌then◌else◌,
}
use monitostr.Model.LogBuffer.{LogEntry}

unfoldable pub truncate_with_ellipsis : Text → ℕ → Text
truncate_with_ellipsis value max_len =
    if leb (length value) max_len
    then value
    else if leb max_len 3
    then take max_len value
    else take (max_len - 3) value ++ codes "..."

-- std::to_string of an int.
unfoldable pub int_text : ℤ → Text
int_text (pos n) = to_string n
int_text (negsuc n) = codes "-" ++ to_string (suc n)

-- The numbers after the first one.
more_nips : List ℤ → Text
unfolding int_text
more_nips [] = []
more_nips (n ∷ nips) = codes "," ++ int_text n ++ more_nips nips

unfoldable pub format_nips : List ℤ → Text
unfolding more_nips
format_nips [] = codes "-"
format_nips (n ∷ nips) = int_text n ++ more_nips nips

pub record RelayListViewport : Type 0 where
  pub start : ℕ
  pub end : ℕ
  pub meta : Text

unfoldable pub clamped_visible : ℕ → ℕ → ℕ
clamped_visible total_relays visible_rows =
    if visible_rows == 0 then total_relays else min visible_rows total_relays

-- The first row, for at least one relay; the sum is of two size_t.
unfoldable pub first_row : ℕ → ℕ → ℕ → ℕ
first_row total_relays selected_relay visible =
    let clamped_selected = min selected_relay (total_relays - 1) in
    let preferred_offset = if ltb 2 visible then visible / 2 else 0 in
    let start =
      if ltb preferred_offset clamped_selected then clamped_selected - preferred_offset else 0 in
    if ltb total_relays ((start + visible) % 2 ^ 64) then total_relays - visible else start

unfoldable pub compute_relay_list_viewport : ℕ → ℕ → ℕ → RelayListViewport
unfolding clamped_visible first_row
compute_relay_list_viewport total_relays selected_relay visible_rows =
    let visible = clamped_visible total_relays visible_rows in
    let start = first_row total_relays selected_relay visible in
    let end = start + visible in
    if total_relays == 0
    then record { start = 0; end = 0; meta = codes "0 discovered" }
    else record {
      start = start;
      end = end;
      meta =
          to_string (start + 1)
          ++ codes "-"
          ++ to_string end
          ++ codes " of "
          ++ to_string total_relays;
    }

-- The first log line that RenderLogs draws, and the lines it draws.
unfoldable pub first_line : ℕ → ℕ → ℕ → ℕ
first_line total log_lines logs_scroll_lines =
    if ltb log_lines total
    then if ltb (total - log_lines) logs_scroll_lines then total - log_lines else logs_scroll_lines
    else 0

unfoldable pub drawn_logs : List LogEntry → ℕ → ℕ → List LogEntry
unfolding first_line
drawn_logs visible_logs log_lines logs_scroll_lines =
    take log_lines
      (drop (first_line (length visible_logs) log_lines logs_scroll_lines) visible_logs)

pub record LogStreamSummary : Type 0 where
  pub meta : Text
  pub empty_text : Text

unfoldable pub summarize_log_stream : ℕ → ℕ → Text → LogStreamSummary
summarize_log_stream visible_logs total_logs logs_search_query =
    if is_empty logs_search_query
    then record { meta = to_string total_logs ++ codes " lines"; empty_text = codes "No logs yet." }
    else record {
      meta = to_string visible_logs ++ codes "/" ++ to_string total_logs ++ codes " visible";
      empty_text = codes "No logs match the current search.";
    }
