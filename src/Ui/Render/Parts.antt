-- ===== src/Ui/Render/Parts.antt =====
-- The small elements of src/ui/ui_renderer.cpp, and its scroll bar.
use monitostr.Prelude.{
  ℕ, zero, suc, ◌+◌, ◌-◌, ◌*◌, ◌/◌, ◌%◌, ◌^◌, max, Bool, ◌&&◌, List, [], ◌∷◌, ◌++◌, Text, codes,
  ltb, leb, ◌==◌, if◌then◌else◌,
}
use monitostr.Model.LogBuffer.{LogLevel, info, warn, error}
use monitostr.Model.RelayStats.{
  RelayStatus, disconnected, resolving, connecting, tls_handshake, ws_handshake, subscribed,
}
use monitostr.Ui.Render.Dom.{
  Color, bold, border, color, bgcolor, width, height, Element, text, filler, hbox, vbox, elements,
  ◌▷◌, panel_alt, border_color, border_focus, text_color, text_muted, accent, accent_warm, success,
  warning, danger,
}

unfoldable pub status_color : RelayStatus → Color
status_color subscribed = success
status_color RelayStatus.error = danger
status_color resolving = accent_warm
status_color connecting = accent_warm
status_color tls_handshake = accent_warm
status_color ws_handshake = accent_warm
status_color disconnected = text_muted

unfoldable pub log_level_color : LogLevel → Color
log_level_color info = accent
log_level_color warn = warning
log_level_color error = danger

unfoldable pub render_chip : Text → Color → Color → Element
render_chip label fg bg = text (32 ∷ (label ++ 32 ∷ [])) ▷ color fg ▷ bgcolor bg ▷ bold

unfoldable pub render_metric_card : Text → Text → Color → Element
render_metric_card label value c =
    vbox (elements ((text label ▷ color text_muted) ∷ (text value ▷ bold ▷ color c) ∷ []))
    ▷ bgcolor panel_alt
    ▷ color text_color
    ▷ border

unfoldable pub render_info_line : Text → Text → Color → Element
render_info_line label value value_color =
    hbox (elements ((text label ▷ color text_muted) ∷ (text value ▷ color value_color) ∷ []))
    ▷ bgcolor panel_alt

unfoldable pub render_panel_title : Text → Text → Bool → Element
render_panel_title title meta focused = hbox (
    elements (
      (text (if focused then codes ">" else codes " ")
        ▷ color (if focused then accent else text_muted))
      ∷ (text (codes " " ++ title) ▷ bold ▷ color (if focused then text_color else text_muted))
      ∷ filler
      ∷ (text meta ▷ color text_muted)
      ∷ []))

pub record Thumb : Type 0 where
  pub pos : ℕ
  pub size : ℕ

abbrev pub size_mod : ℕ
size_mod = 2 ^ 64

-- `thumb_pos` and `thumb_size`; the products are of size_t.
unfoldable pub thumb_of : ℕ → ℕ → ℕ → ℕ → Thumb
thumb_of total_items first_visible visible_items cells =
    let thumb_size = max 1 (cells * visible_items % size_mod / total_items) in
    let track_space = if ltb thumb_size cells then cells - thumb_size else 0 in
    let scroll_space = total_items - visible_items in
    if ltb 0 total_items && (ltb 0 visible_items && ltb visible_items total_items)
    then record {
      pos = if ltb 0 scroll_space then track_space * first_visible % size_mod / scroll_space else 0;
      size = thumb_size;
    }
    else record { pos = 0; size = cells }

unfoldable pub in_thumb : Thumb → ℕ → Bool
in_thumb thumb i = leb thumb.pos i && ltb i ((thumb.pos + thumb.size) % size_mod)

-- The UTF-8 bytes of the full block and of the light vertical line.
unfoldable pub bar_cell : Thumb → Bool → ℕ → Element
bar_cell thumb focused i =
    let track_color = if focused then border_focus else border_color in
    let thumb_color = if focused then accent else text_muted in
    text (if in_thumb thumb i then 0xe2 ∷ 0x96 ∷ 0x88 ∷ [] else 0xe2 ∷ 0x94 ∷ 0x82 ∷ [])
    ▷ color (if in_thumb thumb i then thumb_color else track_color)

-- The loop from cell `i` on, for as many cells.
unfoldable pub bar_cells : Thumb → Bool → ℕ → ℕ → List Element
unfolding bar_cell in_thumb
bar_cells thumb focused i zero = []
bar_cells thumb focused i (suc count) =
    bar_cell thumb focused i ∷ bar_cells thumb focused (suc i) count

unfoldable pub render_vertical_scroll_bar : ℕ → ℕ → ℕ → ℕ → Bool → Element
unfolding thumb_of bar_cells
render_vertical_scroll_bar total_items first_visible visible_items cells focused =
    let thumb = thumb_of total_items first_visible visible_items cells in
    if cells == 0
    then text []
    else vbox (elements (bar_cells thumb focused 0 cells)) ▷ width 1 ▷ height cells
