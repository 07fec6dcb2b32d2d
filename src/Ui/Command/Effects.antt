-- ===== src/Ui/Command/Effects.antt =====
-- What any command of src/ui/command_processor.cpp may do.
use monitostr.Prelude.{
  ◌≡◌, ◌≤◌, ◌⊎◌, inl, inr, refl, Bool, true, false, ◌||◌, List, [], ◌∷◌, ◌++◌, Option, none, some,
  Text, codes, length, text_eq, to_string, is_empty, Bool-cases, arith, if◌then◌else◌,
}
use monitostr.StringUtils.{to_lower_copy, trim_copy}
use monitostr.Model.LogBuffer.{LogBuffer, LogLevel, info, warn, error, note, clear, snapshot}
use monitostr.Ui.Command.{
  CommandState, Environment, Effect, Outcome, Verb, quit, clear_logs, follow, no_follow, compact,
  no_compact, auto_compact, filter, copy_logs, copy_relay, relay_info, write_logs, auth_key, help,
  nothing, unknown, authenticates, copies, saves, auto, force_compact, force_wide, join_logs_text,
  help_text, verb_of, argument, says, set_filter, copies_logs, copies_relay, chosen, tells_relay,
  saves_logs, authenticates_with, perform, execute_command,
}

-- The search starts anew, or is as it was.
abbrev SearchKept : CommandState → CommandState → Type 0
SearchKept before after =
    ((after.logs_search_query ≡ before.logs_search_query)
      × (after.logs_search_hit_ordinal ≡ before.logs_search_hit_ordinal))
    ⊎ (after.logs_search_hit_ordinal ≡ 0)

-- The log scrolls back to its start and follows, or stays where it is.
abbrev ScrollKept : CommandState → CommandState → Type 0
ScrollKept before after =
    (after.logs_scroll_lines ≡ before.logs_scroll_lines)
    ⊎ ((after.logs_scroll_lines ≡ 0) × (after.logs_follow ≡ true))

-- One line more at most, after clearing or not.
abbrev OneLine : Text → Option LogBuffer → Option LogBuffer → Type 0
OneLine now before after =
    (after ≡ before)
    ⊎ ((level : LogLevel) × (message : Text) × (after ≡ note now level message before))
    ⊎ ((level : LogLevel) × (message : Text) × (after
          ≡ note now level message (elim before [ none ↦ none | some b ↦ some (clear b) ])))

pub record Bounded (now : Text) (before : CommandState) (logs : Option LogBuffer) (r : Outcome)
    : Type 0 where
  pub search : SearchKept before r.state
  pub scroll : ScrollKept before r.state
  pub lines : OneLine now logs r.logs
  pub asked : length r.effects ≤ 1

-- One line, with a state whose search and scroll position are as they were.
kept-Bounded :
    (now : Text) (level : LogLevel) (message : Text) (state after : CommandState)
    (logs : Option LogBuffer)
    → after.logs_search_query ≡ state.logs_search_query
    → after.logs_search_hit_ordinal ≡ state.logs_search_hit_ordinal
    → after.logs_scroll_lines ≡ state.logs_scroll_lines
    → Bounded now state logs (says now level message after logs)
unfolding says
kept-Bounded now level message state after logs q o s = record {
  search = inl (q, o);
  scroll = inl s;
  lines = inr (inl (level, message, refl));
  asked = omega arith;
}

says-Bounded :
    (now : Text) (level : LogLevel) (message : Text) (state : CommandState)
    (logs : Option LogBuffer)
    → Bounded now state logs (says now level message state logs)
says-Bounded now level message state logs =
    kept-Bounded now level message state state logs refl refl refl

set_filter-Bounded :
    (now pattern : Text) (state : CommandState) (logs : Option LogBuffer)
    → Bounded now state logs (set_filter now pattern state logs)
unfolding set_filter says
set_filter-Bounded now pattern state logs =
    elim (Bool-cases (is_empty pattern || text_eq (to_lower_copy pattern) (codes "clear"))) [
      | inl e ↦
          rw (e, set_filter)
            (record {
              search = inr refl;
              scroll = inl refl;
              lines = inr (inl (_, _, refl));
              asked = omega arith;
            })
      | inr e ↦
          rw (e, set_filter)
            (record {
              search = inr refl;
              scroll = inl refl;
              lines = inr (inl (_, _, refl));
              asked = omega arith;
            })
    ]

-- A call of the system, and a line on how it went.
went-Bounded :
    (now : Text) (ok : Bool) (good bad : LogLevel) (well badly : Text) (effect : Effect)
    (state : CommandState) (logs : Option LogBuffer)
    → Bounded now state logs (record {
      state = state;
      logs = if ok then note now good well logs else note now bad badly logs;
      effects = effect ∷ [];
    })
went-Bounded now true good bad well badly effect state logs = record {
  search = inl (refl, refl);
  scroll = inl refl;
  lines = inr (inl (_, _, refl));
  asked = omega arith;
}
went-Bounded now false good bad well badly effect state logs = record {
  search = inl (refl, refl);
  scroll = inl refl;
  lines = inr (inl (_, _, refl));
  asked = omega arith;
}

silent-Bounded :
    (now : Text) (effects : List Effect) (state : CommandState) (logs : Option LogBuffer)
    → length effects ≤ 1
    → Bounded now state logs (record { state = state; logs = logs; effects = effects })
silent-Bounded now effects state logs h = record {
  search = inl (refl, refl);
  scroll = inl refl;
  lines = inl refl;
  asked = h;
}

copies_relay-Bounded :
    (now : Text) (env : Environment) (url : Option Text) (state : CommandState)
    (logs : Option LogBuffer)
    → Bounded now state logs (copies_relay now env url state logs)
unfolding copies_relay
copies_relay-Bounded now env none state logs =
    says-Bounded now warn (codes "No relay is currently selected") state logs
copies_relay-Bounded now env (some url) state none = silent-Bounded now [] state none (omega arith)
copies_relay-Bounded now env (some url) state (some b) =
    went-Bounded now (env.copy_text url) info error
      (codes "Copied selected relay URL to clipboard: " ++ url)
      (codes "Failed to copy selected relay URL to clipboard") (copies url) state (some b)

tells_relay-Bounded :
    (now : Text) (report : Option Text) (state : CommandState) (logs : Option LogBuffer)
    → Bounded now state logs (tells_relay now report state logs)
unfolding tells_relay
tells_relay-Bounded now none state logs =
    says-Bounded now warn (codes "No relay is currently selected") state logs
tells_relay-Bounded now (some report) state logs = says-Bounded now info report state logs

saves_logs-Bounded :
    (now : Text) (env : Environment) (path : Text) (state : CommandState) (logs : Option LogBuffer)
    → Bounded now state logs (saves_logs now env path state logs)
unfolding saves_logs
saves_logs-Bounded now env [] state logs =
    says-Bounded now warn (codes "Usage: :wlogs <path>") state logs
saves_logs-Bounded now env (c ∷ path) state none = silent-Bounded now [] state none (omega arith)
saves_logs-Bounded now env (c ∷ path) state (some b) =
    let text = join_logs_text (snapshot b) in
    went-Bounded now (env.save_text (c ∷ path) text) info error
      (codes "Saved " ++ to_string (length (snapshot b)) ++ codes " log lines to " ++ c ∷ path)
      (codes "Failed to save logs to " ++ c ∷ path) (saves (c ∷ path) text) state (some b)

copies_logs-Bounded :
    (now : Text) (env : Environment) (state : CommandState) (logs : Option LogBuffer)
    → Bounded now state logs (copies_logs now env state logs)
unfolding copies_logs
copies_logs-Bounded now env state none = silent-Bounded now [] state none (omega arith)
copies_logs-Bounded now env state (some b) =
    let text = join_logs_text (snapshot b) in
    went-Bounded now (env.copy_text text) info error
      (codes "Copied " ++ to_string (length (snapshot b)) ++ codes " log lines to clipboard")
      (codes "Failed to copy logs to clipboard (pbcopy unavailable?)") (copies text) state (some b)

authenticates-Bounded :
    (now : Text) (env : Environment) (nsec : Text) (state : CommandState) (logs : Option LogBuffer)
    → Bounded now state logs (authenticates_with now env nsec state logs)
unfolding authenticates_with
authenticates-Bounded now env [] state logs =
    says-Bounded now warn (codes "Usage: :auth nsec1...") state logs
authenticates-Bounded now env (c ∷ nsec) state logs = elim (Bool-cases env.can_auth) [
  | inl e ↦
      rw (e, authenticates_with)
        (silent-Bounded now (authenticates (c ∷ nsec) ∷ []) state logs (omega arith))
  | inr e ↦
      rw (e, authenticates_with)
        (says-Bounded now warn (codes "Auth handler not configured") state logs)
]

perform-Bounded :
    (now : Text) (env : Environment) (raw_command raw : Text) (verb : Verb) (state : CommandState)
    (logs : Option LogBuffer)
    → Bounded now state logs (perform now env raw_command raw verb state logs)
unfolding perform says copies_logs
perform-Bounded now env raw_command raw quit state logs = record {
  search = inl (refl, refl);
  scroll = inl refl;
  lines = inr (inl (_, _, refl));
  asked = ground arith;
}
perform-Bounded now env raw_command raw clear_logs state logs = record {
  search = inl (refl, refl);
  scroll = inr (refl, refl);
  lines = inr (inr (_, _, refl));
  asked = omega arith;
}
perform-Bounded now env raw_command raw filter state logs =
    set_filter-Bounded now (argument 6 raw) state logs
perform-Bounded now env raw_command raw follow state logs =
    kept-Bounded now info _ state (record state { logs_follow = true }) logs refl refl refl
perform-Bounded now env raw_command raw no_follow state logs =
    kept-Bounded now info _ state (record state { logs_follow = false }) logs refl refl refl
perform-Bounded now env raw_command raw compact state logs =
    kept-Bounded now info _ state (record state { compact_mode = force_compact }) logs refl refl
      refl
perform-Bounded now env raw_command raw no_compact state logs =
    kept-Bounded now info _ state (record state { compact_mode = force_wide }) logs refl refl refl
perform-Bounded now env raw_command raw auto_compact state logs =
    kept-Bounded now info _ state (record state { compact_mode = auto }) logs refl refl refl
perform-Bounded now env raw_command raw copy_logs state logs =
    copies_logs-Bounded now env state logs
perform-Bounded now env raw_command raw copy_relay state logs =
    copies_relay-Bounded now env (chosen env.selected_relay_text) state logs
perform-Bounded now env raw_command raw relay_info state logs =
    tells_relay-Bounded now (chosen env.selected_relay_report) state logs
perform-Bounded now env raw_command raw write_logs state logs =
    saves_logs-Bounded now env (argument 5 raw) state logs
perform-Bounded now env raw_command raw auth_key state logs =
    authenticates-Bounded now env (argument 4 raw) state logs
perform-Bounded now env raw_command raw nothing state logs =
    silent-Bounded now [] state logs (omega arith)
perform-Bounded now env raw_command raw help state logs = says-Bounded now info help_text state logs
perform-Bounded now env raw_command raw unknown state logs =
    says-Bounded now warn (codes "Unknown command :" ++ raw_command) state logs

-- For every command line, log buffer and environment, ExecuteCommand leaves the search as it was
-- or its ordinal at 0, leaves the scroll position or puts it at 0 in follow mode, writes at most
-- one line to the log, after clearing it or not, and asks at most one thing of the environment.
pub execute_command-Bounded :
    (now : Text) (env : Environment) (raw_command : Text) (state : CommandState)
    (logs : Option LogBuffer)
    → Bounded now state logs (execute_command now env raw_command state logs)
unfolding execute_command
execute_command-Bounded now env raw_command state logs =
    let raw = trim_copy raw_command in
    perform-Bounded now env raw_command raw (verb_of (to_lower_copy raw)) state logs
