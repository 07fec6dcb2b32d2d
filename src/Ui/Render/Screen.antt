-- ===== src/Ui/Render/Screen.antt =====
-- RenderApp of src/ui/ui_renderer.cpp: the bar at the bottom and the whole screen.
pub mod Secrets
pub mod Rows
pub mod Selected
pub mod Latency
use monitostr.Prelude.{
  ℕ, Bool, true, false, List, [], ◌∷◌, ◌++◌, Option, none, some, Text, codes, to_string, is_empty,
  length, text_eq, if◌then◌else◌,
}
use monitostr.Model.RelayStats.{RelayStatus, disconnected}
use monitostr.Ui.Command.{CompactMode, auto, force_compact, force_wide}
use monitostr.Ui.Command.Entries.{compute_command_hint}
use monitostr.Ui.Navigation.{ActivePane, relays, logs}
use monitostr.Ui.Render.Context.{
  RenderMode, normal_mode, insert_mode, search_mode, command_mode, RenderContext,
  SelectedRelaySummary, selected_stat, summarize_selected_relay,
}
use monitostr.Ui.Render.Dom.{
  Color, black, Element, text, separator, filler, hbox, vbox, styled, elements, ◌▷◌, bold, border,
  flex, color, bgcolor, bg, panel, panel_alt, border_color, text_color, text_muted, accent,
  accent_warm, success, danger, command_color,
}
use monitostr.Ui.Render.Parts.{status_color, render_chip, render_metric_card, render_info_line}
use monitostr.Ui.Render.Logs.{render_logs}
use monitostr.Ui.Render.Table.{Scale, render_relay_table}

unfoldable pub mode_label : RenderMode → Text
mode_label insert_mode = codes "INSERT"
mode_label search_mode = codes "SEARCH"
mode_label command_mode = codes "COMMAND"
mode_label normal_mode = codes "NORMAL"

unfoldable pub mode_color : RenderMode → Color
mode_color insert_mode = accent
mode_color search_mode = accent_warm
mode_color command_mode = command_color
mode_color normal_mode = success

unfoldable pub layout_label : CompactMode → Bool → Text
layout_label auto compact = if compact then codes "compact(auto)" else codes "wide(auto)"
layout_label force_compact compact = codes "compact(forced)"
layout_label force_wide compact = codes "wide(forced)"

unfoldable pub is_relays : ActivePane → Bool
is_relays relays = true
is_relays logs = false

unfoldable pub is_logs : ActivePane → Bool
is_logs relays = false
is_logs logs = true

unfoldable pub focus_label : ActivePane → Text
focus_label relays = codes "Relays"
focus_label logs = codes "Logs"

unfoldable pub badge : Text → RenderMode → Element
badge label mode = text label ▷ bold ▷ bgcolor (mode_color mode) ▷ color black

-- The bottom bar, by the mode.
unfoldable pub bottom_bar : RenderMode → RenderContext → Element
unfolding badge
bottom_bar insert_mode c =
    hbox (
      elements (
        badge (codes " INSERT ") insert_mode
        ∷ text (codes "  npub/nsec: ")
        ∷ text (c.input_npub ++ codes "_")
        ∷ []))
    ▷ bgcolor panel
    ▷ color text_color
bottom_bar search_mode c =
    hbox (
      elements (
        badge (codes " SEARCH ") search_mode
        ∷ text (codes "  /")
        ∷ text (c.logs_search_query ++ codes "_")
        ∷ filler
        ∷ (text (
              to_string (length c.visible_logs)
              ++ (codes "/" ++ (to_string c.total_logs ++ codes " matches")))
            ▷ color text_muted)
        ∷ []))
    ▷ bgcolor panel
    ▷ color text_color
bottom_bar command_mode c =
    let hint = compute_command_hint c.command_line in
    let resolved_hint = if is_empty hint then codes "No matching commands" else hint in
    vbox (
      elements (
        (hbox (
            elements (
              badge (codes " CMD ") command_mode
              ∷ text (codes "  :")
              ∷ text (c.command_line ++ codes "_")
              ∷ []))
          ▷ bgcolor panel
          ▷ color text_color)
        ∷ (hbox (elements (text (codes "  ") ∷ (text resolved_hint ▷ color text_muted) ∷ []))
            ▷ bgcolor panel_alt)
        ∷ []))
bottom_bar normal_mode c =
    hbox (
      elements (
        badge (codes " " ++ (mode_label normal_mode ++ codes " ")) normal_mode
        ∷ (text (codes "  [" ++ (focus_label c.active_pane ++ codes "]")) ▷ color text_color)
        ∷ (text (codes "  follow:") ▷ color text_muted)
        ∷ (text (if c.logs_follow then codes "on" else codes "off")
            ▷ color (if c.logs_follow then success else text_muted))
        ∷ (text (codes "  " ++ layout_label c.compact_mode c.compact) ▷ color text_muted)
        ∷ filler
        ∷ (text (codes "h/l  j/k  gg/G  Ctrl-d/u  /  :") ▷ color text_muted)
        ∷ []))
    ▷ bgcolor panel
    ▷ color text_color

-- The first line of the screen.
title_line : RenderContext → Element
title_line c =
    hbox (
      elements (
        (text (codes " MONITOSTR ") ▷ bold ▷ bgcolor accent ▷ color black)
        ∷ (text (codes " relay monitor") ▷ color text_muted)
        ∷ filler
        ∷ render_chip (codes "connected " ++ to_string c.aggregate.connected_relays) success
            panel_alt
        ∷ text (codes " ")
        ∷ render_chip (codes "errors " ++ to_string c.aggregate.errored_relays) danger panel_alt
        ∷ text (codes " ")
        ∷ render_chip (codes "events " ++ to_string c.aggregate.total_events) accent panel_alt
        ∷ []))
    ▷ bgcolor panel

-- The key that is monitored.
key_panel : RenderContext → Element
key_panel c =
    hbox (
      elements (
        (vbox (
            elements (
              (text (codes " npub") ▷ color text_muted)
              ∷ (text (
                    codes " "
                    ++ (if is_empty c.npub_line then codes "waiting for input" else c.npub_line))
                  ▷ color text_color)
              ∷ []))
          ▷ flex)
        ∷ text (codes "  ")
        ∷ (vbox (
              elements (
                (text (codes " pubkey") ▷ color text_muted)
                ∷ (text (
                      codes " "
                      ++ (if is_empty c.hex_line then codes "not derived yet" else c.hex_line))
                    ▷ color text_color)
                ∷ []))
            ▷ flex)
        ∷ []))
    ▷ bgcolor panel_alt
    ▷ border

selected_status : RenderContext → RelayStatus
selected_status c = elim (selected_stat c) [ none ↦ disconnected | some stat ↦ stat.status ]

-- The cards and lines on the selected relay.
relay_cards : SelectedRelaySummary → RenderContext → List Element
unfolding selected_status
relay_cards relay c =
    hbox (
      elements (
        (render_metric_card (codes "Selected relay") relay.relay_summary text_color ▷ flex)
        ∷ text (codes " ")
        ∷ render_metric_card (codes "Status") relay.relay_status (status_color (selected_status c))
        ∷ text (codes " ")
        ∷ render_metric_card (codes "Latency") relay.relay_latency accent_warm
        ∷ text (codes " ")
        ∷ render_metric_card (codes "Events") relay.relay_events accent
        ∷ text (codes " ")
        ∷ render_metric_card (codes "NIPs") relay.relay_nips accent
        ∷ []))
    ∷ render_info_line (codes " relay error: ") relay.relay_error
        (if text_eq relay.relay_error (codes "none") then text_muted else danger)
    ∷ hbox (
        elements (
          (render_info_line (codes " latency stats: ") relay.relay_latency_stats accent_warm ▷ flex)
          ∷ text (codes "  ")
          ∷ render_info_line (codes " uptime: ") relay.relay_uptime success
          ∷ []))
    ∷ []

unfoldable pub main_body : Scale → ℕ → RenderContext → Element
unfolding title_line key_panel relay_cards
main_body scale now c =
    vbox (
      elements (
        title_line c
        ∷ key_panel c
        ∷ (relay_cards (summarize_selected_relay now c) c
            ++ separator
              ∷ render_relay_table scale c (is_relays c.active_pane)
              ∷ separator
              ∷ render_logs c (is_logs c.active_pane)
              ∷ [])))
    ▷ border
    ▷ color border_color
    ▷ bgcolor bg

unfoldable pub render_app : Scale → ℕ → RenderContext → Element
unfolding main_body bottom_bar
render_app scale now c = vbox (elements ((main_body scale now c ▷ flex) ∷ bottom_bar c.mode c ∷ []))
