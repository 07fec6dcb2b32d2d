-- ===== src/Examples/Urls.antt =====
-- Instances of the theorems on relay URLs and texts.
use monitostr.Prelude.{◌≡◌, ◌≢◌, refl, true, [], ◌∷◌, ◌++◌, some, Text, codes, arith}
use monitostr.Net.RelayTarget.{is_target_start, parse_relay_url}
use monitostr.Net.RelayTarget.Laws.{
  Plain, NoDelimiter, IsTarget, absolute, scheme, parse_relay_url_with_port,
}

abbrev host : Text
host = codes "a.b"

host_named : host ≢ []
host_named = λ e. cc

host-Plain : Plain host
unfolding is_target_start
host-Plain = grind arith

port-NoDelimiter : NoDelimiter (codes "80")
unfolding is_target_start
port-NoDelimiter = grind arith

query-IsTarget : IsTarget (codes "?k=v")
unfolding is_target_start
query-IsTarget = refl

parse_relay_url_with_port_example :
    parse_relay_url (scheme true ++ (host ++ b':' ∷ codes "80") ++ codes "?k=v")
    ≡ some
        (record { secure = true; host = host; port = codes "80"; target = absolute (codes "?k=v") })
parse_relay_url_with_port_example =
    parse_relay_url_with_port true host host_named (codes "80") (codes "?k=v") host-Plain
      port-NoDelimiter query-IsTarget
