-- ===== src/Examples/Tables.antt =====
-- Instances of the theorems on the relay table and the log buffer.
use monitostr.Prelude.{
  ◌-◌, ◌≡◌, ◌↔◌, List, [], ◌∷◌, some, Text, codes, length, drop, Has, Perm, IsSorted,
}
use monitostr.Model.LogBuffer.{info, new}
use monitostr.Model.RelayStats.{
  RelayStat, RelayStats, subscribed, default_stat, find, modify, ensure_relay, aggregate, values,
  stat_lt, increment_event,
}
use monitostr.Model.RelayStats.Invariant.{Inv, sets_status, ensures, step, step-Inv}
use monitostr.Model.RelayStats.Summary.{snapshot_lem}
use monitostr.Model.LogBuffer.Laws.{pushes, clears, run, history, snapshot-run}

abbrev url : Text
url = codes "wss://a"

abbrev filled : RelayStats
filled = step [] (sets_status 5 url subscribed [])

filled-Inv : Inv filled
filled-Inv = step-Inv [] (sets_status 5 url subscribed []) tt

step-Inv_example : Inv (step filled (ensures (codes "wss://b")))
step-Inv_example = step-Inv filled (ensures (codes "wss://b")) filled-Inv

snapshot_lem_example :
    IsSorted stat_lt (monitostr.Model.RelayStats.snapshot filled)
    × Perm (monitostr.Model.RelayStats.snapshot filled) (values filled)
    × ((v : RelayStat)
        → Has v (monitostr.Model.RelayStats.snapshot filled) ↔ (find v.relay_url filled ≡ some v))
snapshot_lem_example = snapshot_lem filled filled-Inv

abbrev calls : List monitostr.Model.LogBuffer.Laws.Call
calls =
    pushes (codes "1") info (codes "a")
    ∷ clears
    ∷ pushes (codes "2") info (codes "b")
    ∷ pushes (codes "3") info (codes "c")
    ∷ []

snapshot-run_example :
    monitostr.Model.LogBuffer.snapshot (run (new 1) calls)
    ≡ drop (length (history [] calls) - 1) (history [] calls)
snapshot-run_example = snapshot-run 1 calls
