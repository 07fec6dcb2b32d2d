-- ===== src/Ui/Render/Screen/Secrets.antt =====
-- Where the screen shows what is typed (RenderApp of src/ui/ui_renderer.cpp).
use monitostr.Prelude.{ℕ, ◌≡◌, ◌≢◌, refl, ap, Text, [], ◌∷◌}
use monitostr.Ui.Render.Context.{
  RenderMode, normal_mode, insert_mode, search_mode, command_mode, RenderContext, selected_stat,
  summarize_selected_relay,
}
use monitostr.Ui.Render.Dom.{Element, vbox, elements, ◌▷◌, flex}
use monitostr.Ui.Render.Logs.{render_logs, log_body}
use monitostr.Ui.Render.Table.{Scale, render_relay_table, table_rows}
use monitostr.Ui.Render.Screen.{main_body, bottom_bar, render_app}

bar-input :
    (mode : RenderMode) (c : RenderContext) (typed : Text)
    → mode ≢ insert_mode
    → bottom_bar mode (record c { input_npub = typed }) ≡ bottom_bar mode c
unfolding bottom_bar
bar-input insert_mode c typed n = absurd (n refl)
bar-input search_mode c typed n = refl
bar-input command_mode c typed n = refl
bar-input normal_mode c typed n = refl

bar-command :
    (mode : RenderMode) (c : RenderContext) (typed : Text)
    → mode ≢ command_mode
    → bottom_bar mode (record c { command_line = typed }) ≡ bottom_bar mode c
unfolding bottom_bar
bar-command insert_mode c typed n = refl
bar-command search_mode c typed n = refl
bar-command command_mode c typed n = absurd (n refl)
bar-command normal_mode c typed n = refl

-- Outside insert mode the screen is the same whatever text stands in the input for keys, and
-- outside command mode it is the same whatever stands in the command line.
pub render_app-typed :
    (scale : Scale) (now : ℕ) (c : RenderContext) (typed : Text)
    → (c.mode ≢ insert_mode
        → render_app scale now (record c { input_npub = typed }) ≡ render_app scale now c)
      × (c.mode ≢ command_mode
          → render_app scale now (record c { command_line = typed }) ≡ render_app scale now c)
unfolding render_app main_body render_logs log_body render_relay_table table_rows
    summarize_selected_relay selected_stat
render_app-typed scale now c typed =
    let under : Element → Element =
      λ bar. vbox (elements ((main_body scale now c ▷ flex) ∷ bar ∷ [])) in
    (λ n. ap under (bar-input c.mode c typed n), λ n. ap under (bar-command c.mode c typed n))
