-- ===== src/Ui/Navigation.antt =====
-- src/ui/navigation_controller.cpp and include/monitostr/ui/navigation_controller.hpp. Counts are
-- size_t: `%` keeps the wrap-around.
pub mod Bounds
pub mod Search
use monitostr.Prelude.{
  ℕ, suc, ◌+◌, ◌-◌, ◌%◌, ◌^◌, min, Bool, true, false, not, List, [], ◌∷◌, ◌++◌, Option, none, some,
  Text, codes, is_empty, length, contains, get_elem?, ltb, if◌then◌else◌,
}
use monitostr.StringUtils.{to_lower_copy}
use monitostr.Model.LogBuffer.{LogEntry}

pub data ActivePane : Type 0 where
  relays logs : ActivePane

pub record NavigationState : Type 0 where
  pub active_pane : ActivePane
  pub selected_relay : ℕ
  pub logs_scroll_lines : ℕ
  pub logs_follow : Bool
  pub pending_g : Bool
  pub logs_search_query : Text
  pub logs_search_hit_ordinal : ℕ

abbrev pub size_mod : ℕ
size_mod = 2 ^ 64

-- The text of an entry that a search looks at.
unfoldable pub line_of : LogEntry → Text
line_of entry = to_lower_copy (entry.timestamp ++ 32 ∷ entry.message)

-- The loop of FindLogMatches from index `i`.
unfoldable pub matches_from : Text → ℕ → List LogEntry → List ℕ
unfolding line_of
matches_from lowered_query i [] = []
matches_from lowered_query i (entry ∷ entries) =
    let rest = matches_from lowered_query (suc i) entries in
    if contains (line_of entry) lowered_query then i ∷ rest else rest

unfoldable pub find_log_matches : List LogEntry → Text → List ℕ
unfolding matches_from
find_log_matches entries query =
    if is_empty query then [] else matches_from (to_lower_copy query) 0 entries

unfoldable pub jump_to_top : NavigationState → NavigationState
jump_to_top s = record s { selected_relay = 0; logs_scroll_lines = 0; pending_g = false }

select_last : ℕ → NavigationState → NavigationState
select_last relay_count s =
    if ltb 0 relay_count then record s { selected_relay = relay_count - 1 } else s

in_pane : ActivePane → NavigationState → NavigationState → NavigationState
in_pane relays on_relays on_logs = on_relays
in_pane logs on_relays on_logs = on_logs

unfoldable pub jump_to_bottom : ℕ → ℕ → ℕ → NavigationState → NavigationState
unfolding select_last in_pane
jump_to_bottom relay_count log_count log_page_lines s =
    in_pane s.active_pane (select_last relay_count s) (
      if ltb log_page_lines log_count
      then record s { logs_scroll_lines = log_count - log_page_lines }
      else s)

unfoldable pub jump_to_pane_start : NavigationState → NavigationState
unfolding in_pane
jump_to_pane_start s =
    in_pane s.active_pane (record s { selected_relay = 0 })
      (record s { logs_scroll_lines = 0; logs_follow = false })

unfoldable pub jump_to_pane_end : ℕ → ℕ → ℕ → NavigationState → NavigationState
unfolding select_last in_pane
jump_to_pane_end relay_count log_count log_page_lines s =
    in_pane s.active_pane (select_last relay_count s) (record s {
      logs_scroll_lines = if ltb log_page_lines log_count then log_count - log_page_lines else 0;
      logs_follow = false;
    })

unfoldable pub move_selection_down : ℕ → NavigationState → NavigationState
unfolding in_pane
move_selection_down relay_count s =
    in_pane s.active_pane
      (if ltb 0 relay_count
        then if ltb ((s.selected_relay + 1) % size_mod) relay_count
          then record s { selected_relay = (s.selected_relay + 1) % size_mod }
          else s
        else s)
      (record s { logs_scroll_lines = (s.logs_scroll_lines + 1) % size_mod; logs_follow = false })

unfoldable pub move_selection_up : NavigationState → NavigationState
unfolding in_pane
move_selection_up s =
    in_pane s.active_pane
      (if ltb 0 s.selected_relay then record s { selected_relay = s.selected_relay - 1 } else s)
      (record s {
        logs_scroll_lines =
            if ltb 0 s.logs_scroll_lines then s.logs_scroll_lines - 1 else s.logs_scroll_lines;
        logs_follow = false;
      })

unfoldable pub move_page_down : ℕ → ℕ → NavigationState → NavigationState
unfolding in_pane
move_page_down relay_count log_page_lines s =
    in_pane s.active_pane
      (if ltb 0 relay_count
        then record s { selected_relay = min ((s.selected_relay + 5) % size_mod) (relay_count - 1) }
        else s)
      (record s {
        logs_scroll_lines = (s.logs_scroll_lines + log_page_lines) % size_mod;
        logs_follow = false;
      })

unfoldable pub move_page_up : ℕ → NavigationState → NavigationState
unfolding in_pane
move_page_up log_page_lines s =
    in_pane s.active_pane
      (record s { selected_relay = if ltb 5 s.selected_relay then s.selected_relay - 5 else 0 })
      (record s {
        logs_scroll_lines =
            if ltb log_page_lines s.logs_scroll_lines
            then s.logs_scroll_lines - log_page_lines
            else 0;
        logs_follow = false;
      })

-- The next hit, in a list of `count` hits. `count` is the size of a vector, so `count - 1` is exact.
unfoldable pub next_ordinal : Bool → ℕ → ℕ → ℕ
next_ordinal true ordinal count = (ordinal + 1) % size_mod % count
next_ordinal false ordinal count = (ordinal + count - 1) % size_mod % count

-- `matches[ordinal]` and the scroll position that shows it two lines down.
show_hit : Option ℕ → NavigationState → NavigationState
show_hit none s = s
show_hit (some pos) s = record s {
  logs_scroll_lines = if ltb 2 pos then pos - 2 else 0;
  logs_follow = false;
}

advance_in : List ℕ → Bool → NavigationState → NavigationState
unfolding next_ordinal show_hit
advance_in matches forward s =
    let ordinal = next_ordinal forward s.logs_search_hit_ordinal (length matches) in
    if is_empty matches
    then s
    else show_hit (get_elem? matches ordinal) (record s { logs_search_hit_ordinal = ordinal })

unfoldable pub advance_log_match : List LogEntry → Bool → NavigationState → NavigationState
unfolding advance_in in_pane
advance_log_match entries forward s = in_pane s.active_pane s (
    if is_empty s.logs_search_query
    then s
    else advance_in (find_log_matches entries s.logs_search_query) forward s)
