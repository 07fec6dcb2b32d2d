-- ===== src/Ui/App/Modes.antt =====
-- The modes of the event handler of src/ui/app.cpp, and the typed text outside its mode.
use monitostr.Prelude.{◌≡◌, refl, [], ◌∷◌, arith, ◌==◌, if◌then◌else◌}
use monitostr.Net.RelaySession.{Shared}
use monitostr.Ui.Render.Context.{RenderMode, normal_mode, insert_mode, search_mode, command_mode}
use monitostr.Ui.App.{App, Event, escape, enter, character, Host, takes, passes}
use monitostr.Ui.App.Handler.{
  press, navigates, apply_navigation_state, on_command, on_search, on_insert, on_event,
  finish_command,
}
use monitostr.Ui.App.Keys.{Key, to_insert, to_command, to_search, key_of_letter, key_of}

-- The mode that follows on a key of normal mode.
abbrev pub opened : Event → RenderMode
opened (character (c ∷ [])) =
    if c == b'i'
    then insert_mode
    else if c == b':'
    then command_mode
    else if c == b'/'
    then search_mode
    else normal_mode
opened _ = normal_mode

-- The four modes as an automaton.
abbrev pub next_mode : RenderMode → Event → RenderMode
next_mode normal_mode event = opened event
next_mode mode escape = normal_mode
next_mode mode enter = normal_mode
next_mode mode _ = mode

abbrev mode_of_key : Key → RenderMode
mode_of_key to_insert = insert_mode
mode_of_key to_command = command_mode
mode_of_key to_search = search_mode
mode_of_key _ = normal_mode

press-mode :
    (key : Key) (a : App) (w : Shared)
    → a.mode ≡ normal_mode
    → (press key a w).app.mode ≡ mode_of_key key
unfolding press navigates takes passes apply_navigation_state
press-mode to_insert a w h = refl
press-mode key a w h = ground arith

key_of-mode : (event : Event) → mode_of_key (key_of event) ≡ opened event
unfolding key_of key_of_letter
key_of-mode (character (c ∷ [])) = ground arith
key_of-mode event = ground arith

on_command-mode :
    (host : Host) (event : Event) (a : App) (w : Shared)
    → a.mode ≡ command_mode
    → (on_command host event a w).app.mode ≡ next_mode command_mode event
unfolding on_command finish_command takes passes
on_command-mode host escape a w h = refl
on_command-mode host event a w h = ground arith

on_search-mode :
    (event : Event) (a : App) (w : Shared)
    → a.mode ≡ search_mode
    → (on_search event a w).app.mode ≡ next_mode search_mode event
unfolding on_search navigates takes passes apply_navigation_state
on_search-mode escape a w h = refl
on_search-mode event a w h = ground arith

on_insert-mode :
    (host : Host) (event : Event) (a : App) (w : Shared)
    → a.mode ≡ insert_mode
    → (on_insert host event a w).app.mode ≡ next_mode insert_mode event
unfolding on_insert takes passes
on_insert-mode host escape a w h = refl
on_insert-mode host event a w h = ground arith

-- Whatever the state, the mode after an event is that of an automaton of four modes: in normal
-- mode i, : and / open the other three and all else stays; in these Escape and Return lead back to
-- normal mode and all else stays.
pub on_event-mode :
    (host : Host) (event : Event) (a : App) (w : Shared)
    → (on_event host event a w).app.mode ≡ next_mode a.mode event
unfolding on_event
on_event-mode host event a w = ground (
  arith,
  press-mode (key_of event) a w,
  key_of-mode event,
  on_command-mode host event a w,
  on_search-mode event a w,
  on_insert-mode host event a w,
)
