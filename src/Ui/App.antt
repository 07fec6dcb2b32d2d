-- ===== src/Ui/App.antt =====
-- The members of App (src/ui/app.cpp and include/monitostr/ui/app.hpp), what the terminal sends to it and
-- what it asks for. What FTXUI hands over is an `Event`; what is asked of the callbacks and of the system
-- is a list of requests, which no later statement of the handler reads.
pub mod Keys
pub mod Report
pub mod Handler
pub mod View
pub mod Modes
pub mod Invariant
pub mod Frames
pub mod Unhandled
pub mod Selection
pub mod Typing
pub mod Wiping
use monitostr.Prelude.{
  ℕ, ◌++◌, Bool, true, false, List, [], ◌∷◌, Option, Text, length, ltb, if◌then◌else◌,
}
use monitostr.Model.LogBuffer.{LogBuffer}
use monitostr.Ui.Navigation.{ActivePane, relays}
use monitostr.Ui.Command.{CompactMode, auto, Effect}
use monitostr.Ui.Render.Context.{RenderMode, normal_mode}

abbrev pub max_input_length : ℕ
max_input_length = 512

pub record HeaderContext : Type 0 where
  pub npub : Text
  pub hex_pubkey : Text

-- The members of App that its own code changes.
pub record App : Type 0 where
  pub header_context : HeaderContext
  pub input_npub : Text
  pub mode : RenderMode
  pub active_pane : ActivePane
  pub selected_relay : ℕ
  pub logs_scroll_lines : ℕ
  pub logs_follow : Bool
  pub pending_g : Bool
  pub logs_search_query : Text
  pub logs_search_hit_ordinal : ℕ
  pub command_line : Text
  pub compact_mode : CompactMode

unfoldable pub new : App
new = record {
  header_context = record { npub = []; hex_pubkey = [] };
  input_npub = [];
  mode = normal_mode;
  active_pane = relays;
  selected_relay = 0;
  logs_scroll_lines = 0;
  logs_follow = true;
  pending_g = false;
  logs_search_query = [];
  logs_search_hit_ordinal = 0;
  command_line = [];
  compact_mode = auto;
}

unfoldable pub set_header_context : HeaderContext → App → App
set_header_context context a = record a { header_context = context }

-- The events that the handler tells apart; `character` carries the bytes of one character.
pub data Event : Type 0 where
  escape enter backspace ctrl_d ctrl_u page_down page_up other : Event
  character : Text → Event

-- Which callbacks are set, the system calls of the commands, and the two clocks.
pub record Host : Type 0 where
  pub now : Text
  pub steady : ℕ
  pub can_exit : Bool
  pub can_auth : Bool
  pub copy_text : Text → Bool
  pub save_text : Text → Text → Bool

-- `on_submit_`, and what a command asks for; `on_auth_` is `asks (authenticates nsec)`.
pub data Request : Type 0 where
  submits : Text → Request
  asks : Effect → Request

-- What the handler leaves: its answer, the members, the log and the requests.
pub record Reaction : Type 0 where
  pub handled : Bool
  pub app : App
  pub logs : Option LogBuffer
  pub requests : List Request

unfoldable pub takes : App → Option LogBuffer → List Request → Reaction
takes a b requests = record { handled = true; app = a; logs = b; requests = requests }

unfoldable pub passes : App → Option LogBuffer → Reaction
passes a b = record { handled = false; app = a; logs = b; requests = [] }

-- `SecurePopBack` of a text that is not empty, and nothing for an empty one.
unfoldable pub pop_back : Text → Text
pop_back [] = []
pop_back (c ∷ []) = []
pop_back (c ∷ d ∷ s) = c ∷ pop_back (d ∷ s)

unfoldable pub typed : Text → Text → Text
typed line s = if ltb (length line) max_input_length then line ++ s else line
