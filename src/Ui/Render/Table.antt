-- ===== src/Ui/Render/Table.antt =====
-- RenderRelayTable and RenderSparkline of src/ui/ui_renderer.cpp. The arithmetic of double is a
-- parameter.
use monitostr.Prelude.{
  ℕ, zero, suc, ◌+◌, ◌-◌, ◌*◌, ◌%◌, Bool, List, [], ◌∷◌, ◌++◌, none, some, Text, codes, to_string,
  is_empty, length, take, drop, get_elem?, ltb, ◌==◌, if◌then◌else◌,
}
use monitostr.Model.RelayStats.{RelayStat, status_text}
use monitostr.Ui.Render.{
  truncate_with_ellipsis, format_nips, RelayListViewport, compute_relay_list_viewport,
}
use monitostr.Ui.Render.Context.{RenderContext, latency_text}
use monitostr.Ui.Render.Dom.{
  Element, text, separator, graph, hbox, vbox, elements, ◌▷◌, bold, border, flex, color, bgcolor,
  width, height, panel, panel_alt, panel_focus, border_color, border_focus, text_color, text_muted,
  accent,
}
use monitostr.Ui.Render.Parts.{
  status_color, render_chip, render_panel_title, render_vertical_scroll_bar,
}

-- The greatest latency, 1 at least.
unfoldable pub max_latency : List ℕ → ℕ → ℕ
max_latency [] max_val = max_val
max_latency (v ∷ history) max_val = max_latency history (if ltb max_val v then v else max_val)

-- `scale v max_val height` is `static_cast<int>(v / max_val * height)`.
abbrev pub Scale : Type 0
Scale = ℕ → ℕ → ℕ → ℕ

-- `result[col]`, where `src` is `n - width + col` as an int: the column shows a latency if that is
-- not negative.
unfoldable pub level_at : Scale → List ℕ → ℕ → ℕ → ℕ → ℕ
level_at scale history w h col =
    if ltb (length history + col) w
    then 0
    else elim (get_elem? history (length history + col - w)) [
      | none ↦ 0
      | some v ↦ scale v (max_latency history 1) h
    ]

-- The loop from column `col` on, for as many columns.
unfoldable pub levels : Scale → List ℕ → ℕ → ℕ → ℕ → ℕ → List ℕ
unfolding level_at
levels scale history w h col zero = []
levels scale history w h col (suc count) =
    level_at scale history w h col ∷ levels scale history w h (suc col) count

unfoldable pub graph_levels : Scale → List ℕ → ℕ → ℕ → List ℕ
unfolding levels
graph_levels scale history w h = levels scale history w h 0 w

unfoldable pub render_sparkline : Scale → RelayStat → Element
render_sparkline scale stat =
    graph (graph_levels scale stat.latency_history_ms) ▷ color accent ▷ width 24 ▷ height 2

-- The widths of the columns.
pub record Widths : Type 0 where
  pub index_w : ℕ
  pub relay_w : ℕ
  pub status_w : ℕ
  pub latency_w : ℕ
  pub events_w : ℕ
  pub nips_w : ℕ
  pub spark_w : ℕ

unfoldable pub widths : Bool → Widths
widths compact = record {
  index_w = if compact then 4 else 5;
  relay_w = if compact then 21 else 31;
  status_w = if compact then 9 else 12;
  latency_w = if compact then 7 else 10;
  events_w = if compact then 6 else 8;
  nips_w = if compact then 12 else 16;
  spark_w = if compact then 0 else 24;
}

unfoldable pub ordinal_text : ℕ → ℕ → Text
ordinal_text index_w idx =
    let ordinal = to_string (idx + 1) in
    if ltb index_w (length ordinal) then take (index_w - 1) ordinal ++ codes "+" else ordinal

unfoldable pub relay_cells : Scale → Bool → ℕ → ℕ → RelayStat → List Element
relay_cells scale compact selected_relay idx stat =
    let w = widths compact in
    (text (ordinal_text w.index_w idx)
      ▷ color (if idx == selected_relay then accent else text_muted)
      ▷ width w.index_w)
    ∷ separator
    ∷ (text (truncate_with_ellipsis stat.relay_url (w.relay_w - 1)) ▷ width w.relay_w)
    ∷ separator
    ∷ (render_chip (status_text stat.status) (status_color stat.status) panel_alt
        ▷ width w.status_w)
    ∷ separator
    ∷ (text (latency_text (codes "-") stat.latency_ms)
        ▷ color (elim stat.latency_ms [ none ↦ text_muted | some ms ↦ text_color ])
        ▷ width w.latency_w)
    ∷ separator
    ∷ (text (to_string stat.events_count)
        ▷ color (if ltb 0 stat.events_count then accent else text_muted)
        ▷ width w.events_w)
    ∷ separator
    ∷ (text (truncate_with_ellipsis (format_nips stat.supported_nips) (w.nips_w - 1))
        ▷ width w.nips_w)
    ∷ (if compact then [] else separator ∷ (render_sparkline scale stat ▷ width w.spark_w) ∷ [])

unfoldable pub relay_row : Scale → Bool → ℕ → ℕ → RelayStat → Element
unfolding relay_cells
relay_row scale compact selected_relay idx stat =
    let row = hbox (elements (relay_cells scale compact selected_relay idx stat)) in
    if idx == selected_relay
    then row ▷ bgcolor panel_focus ▷ color text_color
    else row ▷ bgcolor (if idx % 2 == 0 then panel else panel_alt) ▷ color text_color

-- The loop over the rows of the viewport, each followed by a separator, from index `idx` on.
unfoldable pub relay_rows : Scale → Bool → ℕ → ℕ → List RelayStat → List Element
unfolding relay_row
relay_rows scale compact selected_relay idx [] = []
relay_rows scale compact selected_relay idx (stat ∷ stats) =
    relay_row scale compact selected_relay idx stat
    ∷ separator
    ∷ relay_rows scale compact selected_relay (suc idx) stats

unfoldable pub header_row : Bool → Element
header_row compact =
    let w = widths compact in
    hbox (
      elements (
        (text (codes "#") ▷ bold ▷ width w.index_w)
        ∷ separator
        ∷ (text (codes "Relay") ▷ bold ▷ width w.relay_w)
        ∷ separator
        ∷ (text (codes "Status") ▷ bold ▷ width w.status_w)
        ∷ separator
        ∷ (text (codes "Lat") ▷ bold ▷ width w.latency_w)
        ∷ separator
        ∷ (text (codes "Ev") ▷ bold ▷ width w.events_w)
        ∷ separator
        ∷ (text (codes "NIPs") ▷ bold ▷ width w.nips_w)
        ∷ separator
        ∷ (if compact then text [] else text (codes "Spark") ▷ bold)
        ∷ []))
    ▷ bold
    ▷ color text_muted

-- The stats that the viewport shows.
unfoldable pub shown_stats : RelayListViewport → List RelayStat → List RelayStat
shown_stats viewport stats = take (viewport.end - viewport.start) (drop viewport.start stats)

unfoldable pub table_rows : Scale → RenderContext → RelayListViewport → Bool → List Element
unfolding header_row relay_rows shown_stats
table_rows scale context viewport focused =
    render_panel_title (codes "RELAYS") viewport.meta focused
    ∷ separator
    ∷ header_row context.compact
    ∷ separator
    ∷ ((if is_empty context.relay_stats
          then (text (codes "Waiting for relay discovery...") ▷ color text_muted) ∷ separator ∷ []
          else [])
        ++ relay_rows scale context.compact context.selected_relay viewport.start
            (shown_stats viewport context.relay_stats))

unfoldable pub render_relay_table : Scale → RenderContext → Bool → Element
unfolding table_rows
render_relay_table scale context focused =
    let viewport =
      compute_relay_list_viewport (length context.relay_stats) context.selected_relay
        context.relay_rows in
    let shown_rows = viewport.end - viewport.start in
    let relay_panel_height = 4 + shown_rows * 2 in
    hbox (
      elements (
        (vbox (elements (table_rows scale context viewport focused)) ▷ flex)
        ∷ separator
        ∷ render_vertical_scroll_bar (length context.relay_stats) viewport.start context.relay_rows
            relay_panel_height focused
        ∷ []))
    ▷ border
    ▷ color (if focused then border_focus else border_color)
    ▷ bgcolor panel
