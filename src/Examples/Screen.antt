-- ===== src/Examples/Screen.antt =====
-- Instances of the theorems on the terminal UI.
use monitostr.Prelude.{List, [], ◌∷◌, codes}
use monitostr.Model.LogBuffer.{LogEntry, info}

abbrev entries : List LogEntry
entries =
    record { timestamp = codes "1"; level = info; message = codes "Connected" }
    ∷ record { timestamp = codes "2"; level = info; message = codes "closed" }
    ∷ []
