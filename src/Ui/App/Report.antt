-- ===== src/Ui/App/Report.antt =====
-- Texts of src/ui/app.cpp: the test for a secret key and the report on a relay.
use monitostr.Prelude.{
  ℕ, ◌-◌, ◌/◌, ◌%◌, Bool, true, false, ◌&&◌, [], ◌∷◌, ◌++◌, Option, none, some, Text, codes,
  to_string, is_empty, length, ltb, ◌==◌, if◌then◌else◌,
}
use monitostr.StringUtils.{to_lower}
use monitostr.Model.RelayStats.{RelayStat, status_text}
use monitostr.Ui.Render.{format_nips}

-- The loop over the prefix.
unfoldable pub same_in_lower : Text → Text → Bool
same_in_lower value [] = true
same_in_lower [] (p ∷ prefix) = false
same_in_lower (c ∷ value) (p ∷ prefix) = to_lower c == p && same_in_lower value prefix

unfoldable pub looks_like_nsec_input : Text → Bool
unfolding same_in_lower
looks_like_nsec_input value =
    if ltb (length value) 5 then false else same_in_lower value (codes "nsec1")

-- A part of the report that is there only with a value.
with_value : Option ℕ → (ℕ → Text) → Text
with_value none part = []
with_value (some value) part = part value

uptime_part : ℕ → ℕ → Text
uptime_part now connected_at =
    let elapsed = (now - connected_at) / 1_000_000_000 in
    codes " | uptime="
    ++ (to_string (elapsed / 60) ++ (codes "m " ++ (to_string (elapsed % 60) ++ codes "s")))

-- `now` is the steady clock in nanoseconds.
unfoldable pub format_relay_report : ℕ → RelayStat → Text
unfolding with_value uptime_part
format_relay_report now stat =
    codes "Selected relay: "
    ++ (stat.relay_url
        ++ (codes " | status="
            ++ (status_text stat.status
                ++ (with_value stat.latency_ms
                      (λ ms. codes " | latency=" ++ (to_string ms ++ codes " ms"))
                    ++ (codes " | events="
                        ++ (to_string stat.events_count
                            ++ (codes " | nips="
                                ++ ((if is_empty stat.supported_nips
                                      then codes "-"
                                      else format_nips stat.supported_nips)
                                    ++ (with_value stat.connected_at (uptime_part now)
                                        ++ (if is_empty stat.last_error
                                            then []
                                            else codes " | error=" ++ stat.last_error))))))))))
