-- ===== src/Ui/App/Invariant.antt =====
-- What every event leaves true of the members of App (src/ui/app.cpp).
use monitostr.Prelude.{ℕ, ◌≡◌, ◌≤◌, refl, ap, ◌∙◌, [], ◌∷◌, Text, length, length-append, arith}
use monitostr.Net.RelaySession.{Shared}
use monitostr.Ui.Navigation.{
  jump_to_top, jump_to_bottom, jump_to_pane_start, jump_to_pane_end, move_selection_down,
  move_selection_up, move_page_down, move_page_up, advance_log_match,
}
use monitostr.Ui.Command.Filter.{execute_command-ShortQuery}
use monitostr.Ui.Render.Context.{RenderMode, normal_mode, insert_mode, search_mode, command_mode}
use monitostr.Ui.App.{App, Event, character, Host, takes, passes, pop_back, typed}
use monitostr.Ui.App.Handler.{
  press, navigates, navigation_of, apply_navigation_state, environment, command_state, on_command,
  on_search, on_insert, on_event, finish_command,
}
use monitostr.Ui.App.Keys.{Key, to_insert, key_of}

-- What is typed in a mode is held only in that mode.
abbrev pub Held : RenderMode → Text → Text → Type 0
Held insert_mode command_line input_npub = command_line ≡ []
Held command_mode command_line input_npub = input_npub ≡ []
Held _ command_line input_npub = (command_line ≡ []) × (input_npub ≡ [])

-- 511 bytes and one character more.
abbrev pub longest : ℕ
longest = 515

pub record IsSound (a : App) : Type 0 where
  pub input_short : length a.input_npub ≤ longest
  pub command_short : length a.command_line ≤ longest
  pub query_short : length a.logs_search_query ≤ longest
  pub held : Held a.mode a.command_line a.input_npub

-- A character of UTF-8 has at most four bytes.
abbrev pub IsUtf8 : Event → Type 0
IsUtf8 (character s) = length s ≤ 4
IsUtf8 _ = Unit

length-pop_back : (s : Text) → length (pop_back s) ≤ length s
unfolding pop_back
length-pop_back [] = omega arith
length-pop_back (c ∷ []) = omega arith
length-pop_back (c ∷ d ∷ s) = omega (arith, length-pop_back (d ∷ s))

length-typed :
    (line s : Text) → length line ≤ longest → length s ≤ 4 → length (typed line s) ≤ longest
unfolding typed
length-typed line s h k = ground (arith, length-append line s)

-- The keys of normal mode leave the query and the input alone.
press-query :
    (key : Key) (a : App) (w : Shared)
    → ((press key a w).app.logs_search_query ≡ a.logs_search_query)
      × ((press key a w).app.input_npub ≡ a.input_npub)
unfolding press navigates navigation_of takes passes apply_navigation_state jump_to_top
    jump_to_bottom jump_to_pane_start jump_to_pane_end move_selection_down move_selection_up
    move_page_down move_page_up advance_log_match
press-query to_insert a w = (refl, refl)
press-query key a w = ground arith

press-command_line :
    (key : Key) (a : App) (w : Shared) → a.command_line ≡ [] → (press key a w).app.command_line ≡ []
unfolding press navigates takes passes apply_navigation_state
press-command_line to_insert a w h = h
press-command_line key a w h = ground arith

Held-empty :
    (mode : RenderMode) {command_line input_npub : Text}
    → command_line ≡ []
    → input_npub ≡ []
    → Held mode command_line input_npub
Held-empty insert_mode h k = h
Held-empty command_mode h k = k
Held-empty search_mode h k = (h, k)
Held-empty normal_mode h k = (h, k)

press-IsSound :
    (key : Key) (a : App) (w : Shared)
    → a.command_line ≡ []
    → a.input_npub ≡ []
    → length a.logs_search_query ≤ longest
    → IsSound (press key a w).app
press-IsSound key a w h k q =
    let query = press-query key a w in
    let line = press-command_line key a w h in
    let input = query.1 ∙ k in
    record {
      input_short = omega (arith, ap length input);
      command_short = omega (arith, ap length line);
      query_short = omega (arith, ap length query.0);
      held = Held-empty (press key a w).app.mode line input;
    }

on_search-IsSound :
    (event : Event) (a : App) (w : Shared)
    → a.mode ≡ search_mode
    → IsUtf8 event
    → IsSound a
    → IsSound (on_search event a w).app
unfolding on_search navigates navigation_of takes passes apply_navigation_state
on_search-IsSound (character s) a w m u h =
    ground (arith, length-typed a.logs_search_query s h.query_short u)
on_search-IsSound event a w m u h = ground (arith, length-pop_back a.logs_search_query)

on_insert-IsSound :
    (host : Host) (event : Event) (a : App) (w : Shared)
    → a.mode ≡ insert_mode
    → IsUtf8 event
    → IsSound a
    → IsSound (on_insert host event a w).app
unfolding on_insert takes passes
on_insert-IsSound host (character s) a w m u h =
    ground (arith, length-typed a.input_npub s h.input_short u)
on_insert-IsSound host event a w m u h = ground (arith, length-pop_back a.input_npub)

on_command-IsSound :
    (host : Host) (event : Event) (a : App) (w : Shared)
    → a.mode ≡ command_mode
    → IsUtf8 event
    → IsSound a
    → IsSound (on_command host event a w).app
unfolding on_command finish_command command_state takes passes
on_command-IsSound host (character s) a w m u h =
    ground (arith, length-typed a.command_line s h.command_short u)
on_command-IsSound host event a w m u h = ground (
  arith,
  length-pop_back a.command_line,
  execute_command-ShortQuery host.now (environment host a w) a.command_line (command_state a)
      w.logs,
)

pub on_event-IsSound :
    (host : Host) (event : Event) (a : App) (w : Shared)
    → IsUtf8 event
    → IsSound a
    → IsSound (on_event host event a w).app
unfolding on_event
on_event-IsSound host event a w u h = ground (
  arith,
  press-IsSound (key_of event) a w,
  on_search-IsSound event a w,
  on_insert-IsSound host event a w,
  on_command-IsSound host event a w,
)
