-- ===== src/Ui/Command/Filter.antt =====
-- How long a search a command of src/ui/command_processor.cpp may set.
use monitostr.Prelude.{
  ◌++◌, ℕ, ◌≡◌, ◌≤◌, ◌⊎◌, Option, Text, length, length-append, length-drop, drop, arith, ap,
}
use monitostr.StringUtils.{to_lower_copy, trim_copy}
use monitostr.StringUtils.Laws.{trim_copy-IsCore}
use monitostr.Model.LogBuffer.{LogBuffer}
use monitostr.Ui.Command.{
  CommandState, Environment, Verb, filter, verb_of, argument, says, set_filter, copies_logs,
  copies_relay, tells_relay, saves_logs, authenticates_with, perform, execute_command,
}

pub length-trim_copy : (s : Text) → length (trim_copy s) ≤ length s
length-trim_copy s =
    let c = trim_copy-IsCore s in
    omega (
      arith,
      ap length c.spells,
      length-append c.before (trim_copy s ++ c.after),
      length-append (trim_copy s) c.after,
    )

length-argument : (n : ℕ) (raw : Text) → length (argument n raw) ≤ length raw
unfolding argument
length-argument n raw = ground (arith, length-trim_copy (drop n raw), length-drop n raw)

-- The query is kept, or is at most as long as `raw`.
abbrev pub ShortQuery : Text → CommandState → CommandState → Type 0
ShortQuery raw before after =
    (after.logs_search_query ≡ before.logs_search_query)
    ⊎ (length after.logs_search_query ≤ length raw)

set_filter-ShortQuery :
    (now pattern raw : Text) (state : CommandState) (logs : Option LogBuffer)
    → length pattern ≤ length raw
    → ShortQuery raw state (set_filter now pattern state logs).state
unfolding set_filter says
set_filter-ShortQuery now pattern raw state logs h = ground arith

perform-ShortQuery :
    (now : Text) (env : Environment) (raw_command raw : Text) (verb : Verb) (state : CommandState)
    (logs : Option LogBuffer)
    → ShortQuery raw state (perform now env raw_command raw verb state logs).state
unfolding perform says copies_logs copies_relay tells_relay saves_logs authenticates_with
perform-ShortQuery now env raw_command raw filter state logs =
    set_filter-ShortQuery now (argument 6 raw) raw state logs (length-argument 6 raw)
perform-ShortQuery now env raw_command raw verb state logs = ground arith

pub execute_command-ShortQuery :
    (now : Text) (env : Environment) (raw_command : Text) (state : CommandState)
    (logs : Option LogBuffer)
    → ShortQuery raw_command state (execute_command now env raw_command state logs).state
unfolding execute_command
execute_command-ShortQuery now env raw_command state logs =
    let raw = trim_copy raw_command in
    ground (
      arith,
      perform-ShortQuery now env raw_command raw (verb_of (to_lower_copy raw)) state logs,
      length-trim_copy raw_command,
    )
