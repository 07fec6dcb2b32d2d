-- ===== src/Ui/Render/Context.antt =====
-- What src/ui/app.cpp hands to the renderer (include/monitostr/ui/ui_renderer.hpp), and the texts on the
-- selected relay that src/ui/ui_renderer.cpp derives from it.
use monitostr.Prelude.{
  ℕ, ◌+◌, ◌-◌, ◌*◌, ◌/◌, ◌%◌, Bool, List, [], ◌∷◌, ◌++◌, Option, none, some, Text, codes, to_string,
  is_empty, length, get_elem?, ltb, leb, if◌then◌else◌,
}
use monitostr.Model.LogBuffer.{LogEntry}
use monitostr.Model.RelayStats.{RelayStat, AggregateStats, status_text}
use monitostr.Ui.Command.{CompactMode}
use monitostr.Ui.Navigation.{ActivePane}
use monitostr.Ui.Render.{truncate_with_ellipsis, format_nips}

pub data RenderMode : Type 0 where
  normal_mode insert_mode search_mode command_mode : RenderMode

pub record RenderContext : Type 0 where
  pub compact : Bool
  pub tiny : Bool
  pub relay_rows : ℕ
  pub log_lines : ℕ
  pub mode : RenderMode
  pub active_pane : ActivePane
  pub logs_follow : Bool
  pub compact_mode : CompactMode
  pub npub_line : Text
  pub hex_line : Text
  pub input_npub : Text
  pub logs_search_query : Text
  pub command_line : Text
  pub selected_relay : ℕ
  pub logs_scroll_lines : ℕ
  pub total_logs : ℕ
  pub aggregate : AggregateStats
  pub relay_stats : List RelayStat
  pub visible_logs : List LogEntry

pub record SelectedRelaySummary : Type 0 where
  pub relay_summary : Text
  pub relay_status : Text
  pub relay_latency : Text
  pub relay_events : Text
  pub relay_nips : Text
  pub relay_error : Text
  pub relay_latency_stats : Text
  pub relay_uptime : Text

-- The loop over the latencies, with the sum, the least and the greatest one so far.
unfoldable pub scan_latencies : List ℕ → ℕ → ℕ → ℕ → ℕ × ℕ × ℕ
scan_latencies [] sum min_val max_val = (sum, min_val, max_val)
scan_latencies (v ∷ history) sum min_val max_val =
    scan_latencies history (sum + v) (if ltb v min_val then v else min_val)
      (if ltb max_val v then v else max_val)

-- std::round of `sum / count`, halves away from zero.
unfoldable pub rounded_mean : ℕ → ℕ → ℕ
rounded_mean sum count = (2 * sum + count) / (2 * count)

unfoldable pub latency_stats : List ℕ → Text
unfolding scan_latencies rounded_mean
latency_stats [] = codes "-"
latency_stats (v ∷ history) =
    let (sum, min_val, max_val) = scan_latencies (v ∷ history) 0 v v in
    codes "avg: "
    ++ (to_string (rounded_mean sum (length (v ∷ history)))
        ++ (codes " min: " ++ (to_string min_val ++ (codes " max: " ++ to_string max_val))))

-- The readings of the steady clock are in nanoseconds.
unfoldable pub uptime : ℕ → Option ℕ → Text
uptime now none = codes "-"
uptime now (some connected_at) =
    let elapsed = (now - connected_at) / 1_000_000_000 in
    let mins = elapsed / 60 in
    let secs = elapsed % 60 in
    if ltb 0 mins
    then to_string mins ++ (codes "m " ++ (to_string secs ++ codes "s"))
    else to_string secs ++ codes "s"

-- A latency, or `missing` when there is none.
unfoldable pub latency_text : Text → Option ℕ → Text
latency_text missing none = missing
latency_text missing (some latency_ms) = to_string latency_ms ++ codes " ms"

-- `&context.relay_stats[context.selected_relay]`, or the null pointer.
unfoldable pub selected_stat : RenderContext → Option RelayStat
selected_stat context =
    if is_empty context.relay_stats
    then none
    else if leb (length context.relay_stats) context.selected_relay
    then none
    else get_elem? context.relay_stats context.selected_relay

summarize : ℕ → Bool → Option RelayStat → SelectedRelaySummary
unfolding latency_stats latency_text uptime
summarize now compact none = record {
  relay_summary = codes "No relay selected";
  relay_status = codes "idle";
  relay_latency = codes "waiting";
  relay_events = codes "0";
  relay_nips = codes "-";
  relay_error = codes "none";
  relay_latency_stats = codes "-";
  relay_uptime = codes "-";
}
summarize now compact (some stat) = record {
  relay_summary = truncate_with_ellipsis stat.relay_url (if compact then 52 else 84);
  relay_status = status_text stat.status;
  relay_latency = latency_text (codes "waiting") stat.latency_ms;
  relay_events = to_string stat.events_count;
  relay_nips =
      truncate_with_ellipsis (format_nips stat.supported_nips) (if compact then 24 else 40);
  relay_error =
      if is_empty stat.last_error
      then codes "none"
      else truncate_with_ellipsis stat.last_error (if compact then 44 else 88);
  relay_latency_stats = latency_stats stat.latency_history_ms;
  relay_uptime = uptime now stat.connected_at;
}

unfoldable pub summarize_selected_relay : ℕ → RenderContext → SelectedRelaySummary
unfolding summarize selected_stat
summarize_selected_relay now context = summarize now context.compact (selected_stat context)
