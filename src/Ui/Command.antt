-- ===== src/Ui/Command.antt =====
-- src/ui/command_processor.cpp: the hints for a command line and what a command does. The clipboard,
-- the file system and the callbacks are an `Environment`; what is asked of them is a list of effects.
pub mod Entries
pub mod Hints
pub mod Effects
pub mod Filter
use monitostr.Prelude.{
  ℕ, zero, suc, ◌+◌, Bool, true, false, ◌||◌, List, [], ◌∷◌, ◌++◌, Option, none, some, Text, codes,
  text_eq, starts_with, to_string, is_empty, length, leb, ltb, drop, if◌then◌else◌, ◌≡◌, refl,
}
use monitostr.StringUtils.{to_lower_copy, trim_copy}
use monitostr.Model.LogBuffer.{
  LogBuffer, LogEntry, LogLevel, info, warn, error, level_text, note, clear, snapshot,
}

pub data CompactMode : Type 0 where
  auto force_compact force_wide : CompactMode

pub record CommandState : Type 0 where
  pub logs_follow : Bool
  pub compact_mode : CompactMode
  pub logs_search_query : Text
  pub logs_search_hit_ordinal : ℕ
  pub logs_scroll_lines : ℕ

-- The callbacks that are set, what they answer, and the two system calls.
pub record Environment : Type 0 where
  pub can_exit : Bool
  pub can_auth : Bool
  -- `copy_text`, or the clipboard of the platform.
  pub copy_text : Text → Bool
  pub selected_relay_text : Option Text
  pub selected_relay_report : Option Text
  pub save_text : Text → Text → Bool

pub data Effect : Type 0 where
  exits : Effect
  authenticates : Text → Effect
  copies : Text → Effect
  saves : Text → Text → Effect

pub record Outcome : Type 0 where
  pub state : CommandState
  pub logs : Option LogBuffer
  pub effects : List Effect

unfoldable pub join_logs_text : List LogEntry → Text
join_logs_text [] = []
join_logs_text (e ∷ logs) =
    e.timestamp
    ++ codes " ["
    ++ level_text e.level
    ++ codes "] "
    ++ e.message
    ++ 10 ∷ join_logs_text logs

-- Which branch of ExecuteCommand a lowered command takes.
pub data Verb : Type 0 where
  quit clear_logs follow no_follow compact no_compact auto_compact filter copy_logs copy_relay :
      Verb
  relay_info write_logs auth_key help nothing unknown : Verb

unfoldable pub verb_of : Text → Verb
verb_of cmd =
    if text_eq cmd (codes "q")
      || text_eq cmd (codes "quit")
      || text_eq cmd (codes "qa")
      || text_eq cmd (codes "qall")
    then quit
    else if text_eq cmd (codes "clearlogs") || text_eq cmd (codes "cl")
    then clear_logs
    else if text_eq cmd (codes "set follow")
    then follow
    else if text_eq cmd (codes "set nofollow")
    then no_follow
    else if text_eq cmd (codes "set compact")
    then compact
    else if text_eq cmd (codes "set nocompact")
    then no_compact
    else if text_eq cmd (codes "set autocompact")
    then auto_compact
    else if starts_with cmd (codes "filter")
    then filter
    else if text_eq cmd (codes "copylogs") || text_eq cmd (codes "yanklogs")
    then copy_logs
    else if text_eq cmd (codes "copyrelay") || text_eq cmd (codes "yankrelay")
    then copy_relay
    else if text_eq cmd (codes "relayinfo") || text_eq cmd (codes "ri")
    then relay_info
    else if starts_with cmd (codes "wlogs")
    then write_logs
    else if starts_with cmd (codes "auth")
    then auth_key
    else if text_eq cmd (codes "help") || text_eq cmd (codes "h")
    then help
    else if is_empty cmd
    then nothing
    else unknown

-- `raw.substr(n)` trimmed, or "" when the command is no longer than that.
unfoldable pub argument : ℕ → Text → Text
argument n raw = if ltb n (length raw) then trim_copy (drop n raw) else []

-- A command that only writes one line.
unfoldable pub says : Text → LogLevel → Text → CommandState → Option LogBuffer → Outcome
says now level message state logs = record {
  state = state;
  logs = note now level message logs;
  effects = [];
}

unfoldable pub set_filter : Text → Text → CommandState → Option LogBuffer → Outcome
unfolding says
set_filter now pattern state logs =
    if is_empty pattern || text_eq (to_lower_copy pattern) (codes "clear")
    then says now info (codes "Log filter cleared (:filter clear)")
        (record state { logs_search_query = []; logs_search_hit_ordinal = 0 }) logs
    else says now info (codes "Log filter set to: " ++ pattern)
        (record state {
          logs_search_query = pattern;
          logs_search_hit_ordinal = 0;
          logs_follow = false;
        })
        logs

unfoldable pub copies_logs : Text → Environment → CommandState → Option LogBuffer → Outcome
copies_logs now env state none = record { state = state; logs = none; effects = [] }
copies_logs now env state (some b) =
    let text = join_logs_text (snapshot b) in
    record {
      state = state;
      logs =
          if env.copy_text text
          then note now info
              (codes "Copied "
                ++ to_string (length (snapshot b))
                ++ codes " log lines to clipboard")
              (some b)
          else note now error (codes "Failed to copy logs to clipboard (pbcopy unavailable?)")
              (some b);
      effects = copies text ∷ [];
    }

-- A callback that is missing, or answers with no text, is `none` here.
unfoldable pub chosen : Option Text → Option Text
chosen none = none
chosen (some []) = none
chosen (some (c ∷ text)) = some (c ∷ text)

unfoldable pub copies_relay :
    Text → Environment → Option Text → CommandState → Option LogBuffer → Outcome
unfolding says
copies_relay now env none state logs =
    says now warn (codes "No relay is currently selected") state logs
copies_relay now env (some url) state none = record { state = state; logs = none; effects = [] }
copies_relay now env (some url) state (some b) = record {
  state = state;
  logs =
      if env.copy_text url
      then note now info (codes "Copied selected relay URL to clipboard: " ++ url) (some b)
      else note now error (codes "Failed to copy selected relay URL to clipboard") (some b);
  effects = copies url ∷ [];
}

unfoldable pub tells_relay : Text → Option Text → CommandState → Option LogBuffer → Outcome
unfolding says
tells_relay now none state logs = says now warn (codes "No relay is currently selected") state logs
tells_relay now (some report) state logs = says now info report state logs

unfoldable pub saves_logs : Text → Environment → Text → CommandState → Option LogBuffer → Outcome
unfolding says
saves_logs now env [] state logs = says now warn (codes "Usage: :wlogs <path>") state logs
saves_logs now env (c ∷ path) state none = record { state = state; logs = none; effects = [] }
saves_logs now env (c ∷ path) state (some b) =
    let text = join_logs_text (snapshot b) in
    record {
      state = state;
      logs =
          if env.save_text (c ∷ path) text
          then note now info
              (codes "Saved "
                ++ to_string (length (snapshot b))
                ++ codes " log lines to "
                ++ c ∷ path)
              (some b)
          else note now error (codes "Failed to save logs to " ++ c ∷ path) (some b);
      effects = saves (c ∷ path) text ∷ [];
    }

unfoldable pub authenticates_with :
    Text → Environment → Text → CommandState → Option LogBuffer → Outcome
unfolding says
authenticates_with now env [] state logs = says now warn (codes "Usage: :auth nsec1...") state logs
authenticates_with now env (c ∷ nsec) state logs =
    if env.can_auth
    then record { state = state; logs = logs; effects = authenticates (c ∷ nsec) ∷ [] }
    else says now warn (codes "Auth handler not configured") state logs

abbrev pub help_text : Text
help_text =
    codes "Commands: :q :quit :qa :qall :clearlogs (:cl) :set follow :set nofollow "
    ++ codes ":set nipswrap :set nonipswrap :set compact :set nocompact :set autocompact "
    ++ codes ":filter <pattern> :filter clear "
    ++ codes ":copylogs (:yanklogs) :copyrelay (:yankrelay) :relayinfo (:ri) :wlogs <path> "
    ++ codes ":auth nsec1... (NIP-42 auth) "
    ++ codes ":help"

-- The branches; `raw_command` is the line as typed and `raw` the trimmed one.
unfoldable pub perform :
    Text → Environment → Text → Text → Verb → CommandState → Option LogBuffer → Outcome
unfolding says set_filter argument copies_logs copies_relay tells_relay saves_logs
    authenticates_with chosen
perform now env raw_command raw quit state logs = record {
  state = state;
  logs = note now info (codes "Command :" ++ raw_command ++ codes " executed (exit)") logs;
  effects = if env.can_exit then exits ∷ [] else [];
}
perform now env raw_command raw clear_logs state logs =
    says now info (codes "Logs cleared by command :" ++ raw_command)
      (record state { logs_scroll_lines = 0; logs_follow = true })
      (elim logs [ none ↦ none | some b ↦ some (clear b) ])
perform now env raw_command raw follow state logs =
    says now info (codes "Logs follow mode enabled (:set follow)")
      (record state { logs_follow = true }) logs
perform now env raw_command raw no_follow state logs =
    says now info (codes "Logs follow mode disabled (:set nofollow)")
      (record state { logs_follow = false }) logs
perform now env raw_command raw compact state logs =
    says now info (codes "Compact layout forced (:set compact)")
      (record state { compact_mode = force_compact }) logs
perform now env raw_command raw no_compact state logs =
    says now info (codes "Wide layout forced (:set nocompact)")
      (record state { compact_mode = force_wide }) logs
perform now env raw_command raw auto_compact state logs =
    says now info (codes "Layout mode returned to auto detection (:set autocompact)")
      (record state { compact_mode = auto }) logs
perform now env raw_command raw filter state logs = set_filter now (argument 6 raw) state logs
perform now env raw_command raw copy_logs state logs = copies_logs now env state logs
perform now env raw_command raw copy_relay state logs =
    copies_relay now env (chosen env.selected_relay_text) state logs
perform now env raw_command raw relay_info state logs =
    tells_relay now (chosen env.selected_relay_report) state logs
perform now env raw_command raw write_logs state logs =
    saves_logs now env (argument 5 raw) state logs
perform now env raw_command raw auth_key state logs =
    authenticates_with now env (argument 4 raw) state logs
perform now env raw_command raw help state logs = says now info help_text state logs
perform now env raw_command raw nothing state logs = record {
  state = state;
  logs = logs;
  effects = [];
}
perform now env raw_command raw unknown state logs =
    says now warn (codes "Unknown command :" ++ raw_command) state logs

unfoldable pub execute_command :
    Text → Environment → Text → CommandState → Option LogBuffer → Outcome
unfolding perform verb_of
execute_command now env raw_command state logs =
    let raw = trim_copy raw_command in
    perform now env raw_command raw (verb_of (to_lower_copy raw)) state logs
