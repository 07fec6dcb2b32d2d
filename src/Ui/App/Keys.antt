-- ===== src/Ui/App/Keys.antt =====
-- The keys of normal mode in the event handler of src/ui/app.cpp.
use monitostr.Prelude.{ℕ, [], ◌∷◌, ◌==◌, if◌then◌else◌}
use monitostr.Ui.App.{
  Event, escape, enter, backspace, ctrl_d, ctrl_u, page_down, page_up, other, character,
}

-- Which branch of normal mode an event takes.
pub data Key : Type 0 where
  to_insert to_command to_search left_pane right_pane toggle_follow letter_g bottom : Key
  pane_start pane_end next_hit previous_hit down up forward_page back_page cancel unbound : Key

unfoldable pub key_of_letter : ℕ → Key
key_of_letter c =
    if c == b'i'
    then to_insert
    else if c == b':'
    then to_command
    else if c == b'/'
    then to_search
    else if c == b'h'
    then left_pane
    else if c == b'l'
    then right_pane
    else if c == b'f'
    then toggle_follow
    else if c == b'g'
    then letter_g
    else if c == b'G'
    then bottom
    else if c == b'0'
    then pane_start
    else if c == b'$'
    then pane_end
    else if c == b'n'
    then next_hit
    else if c == b'N'
    then previous_hit
    else if c == b'j'
    then down
    else if c == b'k'
    then up
    else if c == b'd'
    then forward_page
    else if c == b'u'
    then back_page
    else unbound

unfoldable pub key_of : Event → Key
unfolding key_of_letter
key_of (character []) = unbound
key_of (character (c ∷ [])) = key_of_letter c
key_of (character (c ∷ d ∷ s)) = unbound
key_of ctrl_d = forward_page
key_of page_down = forward_page
key_of ctrl_u = back_page
key_of page_up = back_page
key_of escape = cancel
key_of enter = unbound
key_of backspace = unbound
key_of other = unbound
