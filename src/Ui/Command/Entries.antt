-- ===== src/Ui/Command/Entries.antt =====
-- The table of commands of src/ui/command_processor.cpp and the hint for what is typed.
use monitostr.Prelude.{
  ℕ, ◌+◌, true, false, List, [], ◌∷◌, ◌++◌, Text, codes, starts_with, is_empty, leb, if◌then◌else◌,
}
use monitostr.StringUtils.{to_lower_copy}

pub record CommandEntry : Type 0 where
  pub name : Text
  pub desc : Text

abbrev entry : Text → Text → CommandEntry
entry name desc = record { name = name; desc = desc }

-- kCommands.
abbrev pub commands : List CommandEntry
commands =
    entry (codes "q") (codes "quit")
    ∷ entry (codes "quit") (codes "quit")
    ∷ entry (codes "qa") (codes "quit all")
    ∷ entry (codes "qall") (codes "quit all")
    ∷ entry (codes "cl") (codes "clear logs")
    ∷ entry (codes "clearlogs") (codes "clear logs")
    ∷ entry (codes "set follow") (codes "enable log follow")
    ∷ entry (codes "set nofollow") (codes "disable log follow")
    ∷ entry (codes "set nipswrap") (codes "wrap NIPs")
    ∷ entry (codes "set nonipswrap") (codes "unwrap NIPs")
    ∷ entry (codes "set compact") (codes "force compact layout")
    ∷ entry (codes "set nocompact") (codes "force wide layout")
    ∷ entry (codes "set autocompact") (codes "auto layout")
    ∷ entry (codes "filter") (codes "filter logs [pattern|clear]")
    ∷ entry (codes "copylogs") (codes "copy logs to clipboard")
    ∷ entry (codes "yanklogs") (codes "copy logs to clipboard")
    ∷ entry (codes "copyrelay") (codes "copy selected relay URL")
    ∷ entry (codes "yankrelay") (codes "copy selected relay URL")
    ∷ entry (codes "relayinfo") (codes "print selected relay details")
    ∷ entry (codes "ri") (codes "print selected relay details")
    ∷ entry (codes "wlogs") (codes "write logs to file")
    ∷ entry (codes "auth") (codes "set NIP-42 key (nsec1...)")
    ∷ entry (codes "help") (codes "show help")
    ∷ entry (codes "h") (codes "show help")
    ∷ []

abbrev pub short_hint : Text
short_hint = codes "q  cl  set  filter  auth  copylogs  copyrelay  relayinfo  wlogs  help"

-- `":" + name + "(" + desc + ")"`, after two spaces unless the hint is empty.
unfoldable pub with_entry : Text → CommandEntry → Text
with_entry hint e =
    (if is_empty hint then hint else hint ++ codes "  ")
    ++ codes ":"
    ++ e.name
    ++ codes "("
    ++ e.desc
    ++ codes ")"

-- The loop, with the hint and the count so far; it breaks at five.
unfoldable pub hint_loop : Text → List CommandEntry → Text → ℕ → Text
unfolding with_entry
hint_loop lower [] hint count = hint
hint_loop lower (e ∷ rest) hint count = elim (starts_with e.name lower) [
  | true ↦ elim (leb 5 (count + 1)) [
    | true ↦ with_entry hint e
    | false ↦ hint_loop lower rest (with_entry hint e) (count + 1)
  ]
  | false ↦ hint_loop lower rest hint count
]

unfoldable pub hint_from : List CommandEntry → Text → Text
unfolding hint_loop
hint_from entries input =
    if is_empty input then short_hint else hint_loop (to_lower_copy input) entries [] 0

unfoldable pub compute_command_hint : Text → Text
compute_command_hint input = hint_from commands input
