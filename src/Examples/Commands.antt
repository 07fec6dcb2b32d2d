-- ===== src/Examples/Commands.antt =====
-- Instances of the theorems on the command line and the bootstrap.
use monitostr.Prelude.{
  ℕ, ◌≡◌, ◌≢◌, ◌↔◌, refl, Bool, true, false, List, [], ◌∷◌, ◌++◌, Option, none, some, Text, codes,
  Has,
}
use monitostr.Net.RelayTarget.{ParsedRelayUrl, parse_relay_url}
use monitostr.Net.Bootstrap.{Seed, answers, query_kind_with_ws, resolve_relays_for_pubkey}
use monitostr.Net.Bootstrap.RelayList.{deduplicate}
use monitostr.Net.Bootstrap.Usable.{FallsBack, answering_seed_wins}
use monitostr.Ui.Command.{CommandState, Environment, auto, execute_command}
use monitostr.Ui.Command.Effects.{Bounded, execute_command-Bounded}
use monitostr.Examples.Fixtures.{services, relay}

-- Every seed answers, with nothing.
abbrev silent : ℕ → Seed
silent i = answers [] []

abbrev seed_url : Text
seed_url = codes "wss://relay.example"

named : codes "00" ≢ []
named = λ e. cc

seed_parses : parse_relay_url seed_url ≡ some relay
unfolding parse_relay_url monitostr.Prelude.starts_with monitostr.Net.RelayTarget.parse_rest
    monitostr.Net.RelayTarget.split_port monitostr.Net.RelayTarget.split_relay_host_and_target
seed_parses = refl

nothing_listed : (sub_id : Text) → query_kind_with_ws services sub_id [] ≡ []
unfolding query_kind_with_ws monitostr.Net.Bootstrap.query_loop deduplicate
nothing_listed sub_id = refl

answering_seed_wins_example :
    FallsBack seed_url
      (resolve_relays_for_pubkey services (codes "1") (codes "00") seed_url silent none).0
answering_seed_wins_example =
    answering_seed_wins services (codes "1") (codes "00") seed_url silent none relay [] [] named
      seed_parses refl (nothing_listed (codes "bootstrap-10002"))
      (nothing_listed (codes "bootstrap-3"))

typed : codes "Set" ≢ []
typed = λ e. cc

abbrev state : CommandState
state = record {
  logs_follow = true;
  compact_mode = auto;
  logs_search_query = [];
  logs_search_hit_ordinal = 4;
  logs_scroll_lines = 7;
}

abbrev environment : Environment
environment = record {
  can_exit = true;
  can_auth = false;
  copy_text = λ text. false;
  selected_relay_text = none;
  selected_relay_report = none;
  save_text = λ path text. true;
}

execute_command-Bounded_example :
    Bounded
      (codes "1")
      state
      none
      (execute_command (codes "1") environment (codes "filter error") state none)
execute_command-Bounded_example =
    execute_command-Bounded (codes "1") environment (codes "filter error") state none
