-- ===== src/Model/LogBuffer/Laws.antt =====
-- LogBuffer of include/monitostr/model/log_buffer.hpp against the sequence of its pushes and clears.
use monitostr.Prelude.{ℕ, ◌-◌, ◌≡◌, refl, ap, sym, ◌∙◌, List, [], ◌∷◌, ◌++◌, Text, length, drop}
use monitostr.Model.Window.{push_window-drop, drop-nil}
use monitostr.Model.LogBuffer.{LogLevel, LogEntry, LogBuffer, new, push, clear, snapshot}

-- The calls that change the buffer, with the clock reading of each write.
pub data Call : Type 0 where
  pushes : Text → LogLevel → Text → Call
  clears : Call

unfoldable pub step : LogBuffer → Call → LogBuffer
step b (pushes now level message) = push now level message b
step b clears = clear b

unfoldable pub run : LogBuffer → List Call → LogBuffer
unfolding step
run b [] = b
run b (c ∷ cs) = run (step b c) cs

-- What was written since the last `Clear`, with no bound.
pub history : List LogEntry → List Call → List LogEntry
history written [] = written
history written (pushes now level message ∷ cs) =
    history (written ++ record { timestamp = now; level = level; message = message } ∷ []) cs
history written (clears ∷ cs) = history [] cs

newest : ℕ → List LogEntry → List LogEntry
newest limit l = drop (length l - limit) l

run-newest :
    (limit : ℕ) (written : List LogEntry) (cs : List Call)
    → snapshot (run (record { max_entries = limit; entries = newest limit written }) cs)
      ≡ newest limit (history written cs)
unfolding snapshot run history push clear newest
run-newest limit written [] = refl
run-newest limit written (pushes now level message ∷ cs) =
    let entry : LogEntry = record { timestamp = now; level = level; message = message } in
    ap (λ l. snapshot (run (record { max_entries = limit; entries = l }) cs))
      (push_window-drop limit entry written)
    ∙ run-newest limit (written ++ entry ∷ []) cs
run-newest limit written (clears ∷ cs) =
    ap (λ l. snapshot (run (record { max_entries = limit; entries = l }) cs))
      (sym (drop-nil (0 - limit)))
    ∙ run-newest limit [] cs

-- After any pushes and clears from a new buffer, a snapshot is the newest entries, at most the
-- limit of them, of all that was written since the last clear.
pub snapshot-run :
    (limit : ℕ) (cs : List Call)
    → snapshot (run (new limit) cs) ≡ drop (length (history [] cs) - limit) (history [] cs)
unfolding new newest
snapshot-run limit cs =
    ap (λ l. snapshot (run (record { max_entries = limit; entries = l }) cs))
      (sym (drop-nil (0 - limit)))
    ∙ run-newest limit [] cs
