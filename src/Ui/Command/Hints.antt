-- ===== src/Ui/Command/Hints.antt =====
-- ComputeCommandHint of src/ui/command_processor.cpp against a description of the hint.
use monitostr.Prelude.{ℕ, suc, ◌+◌, ◌≡◌, List, [], ◌∷◌, Text, take, starts_with, if◌then◌else◌}
use monitostr.Ui.Command.Entries.{CommandEntry, with_entry, hint_loop}

-- The commands whose names start with the text.
pub matching : Text → List CommandEntry → List CommandEntry
matching lower [] = []
matching lower (e ∷ rest) =
    let found = matching lower rest in if starts_with e.name lower then e ∷ found else found

-- The hint for a list of commands, behind a given text.
pub shown : Text → List CommandEntry → Text
shown hint [] = hint
shown hint (e ∷ rest) = shown (with_entry hint e) rest

-- What the loop does with the rest of the commands.
Continues : Text → List CommandEntry → Type 0
Continues lower rest =
    (hint : Text) (count left : ℕ)
    → count + suc left ≡ 5
    → hint_loop lower rest hint count ≡ shown hint (take (suc left) (matching lower rest))
