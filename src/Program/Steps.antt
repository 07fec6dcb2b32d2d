-- ===== src/Program/Steps.antt =====
-- What may happen to the program of src/main.cpp, one step at a time, and what stays true of it.
use monitostr.Prelude.{Bool, ℕ, ◌≡◌, true, List, ◌∷◌, ◌++◌, Text, arith}
use monitostr.Net.Services.{Services}
use monitostr.Net.RelaySession.{Op, Session, Now, State, begin, set_auth_key}
use monitostr.Net.RelaySession.Handlers.{stop}
use monitostr.Net.RelaySession.Steps.{
  Move, stays, goes, retries, opens, answers, answers_and_reads, restarts, complete-Move, Step,
  completes, stops, takes_key,
}
use monitostr.Net.Bootstrap.{Seed}
use monitostr.Ui.App.{Event}
use monitostr.Ui.App.Invariant.{IsUtf8}
use monitostr.Ui.App.View.{frame}
use monitostr.Program.{Program, Lookup, finish_lookup, host_of, on_terminal}

-- An event of the terminal, a frame, the end of the oldest lookup, or a handler of a session.
pub data ProgramStep (lib : Services) (before after : Program) : Type 0 where
  terminal :
      (now : Now) (copy_text : Text → Bool) (save_text : Text → Text → Bool) (event : Event)
      → IsUtf8 event
      → after ≡ on_terminal lib now (host_of now copy_text save_text) event before
      → ProgramStep lib before after
  draws :
      (dimx dimy : ℕ)
      → after ≡ record before { app = (frame dimx dimy before.app before.manager.shared).0 }
      → ProgramStep lib before after
  looks_up :
      (now : Now) (seeds : ℕ → Seed) (lookup : Lookup) (rest : List Lookup)
      → before.lookups ≡ lookup ∷ rest
      → after ≡ finish_lookup lib now seeds lookup rest before
      → ProgramStep lib before after
  running :
      (s : Session) (xs ys : List Session) (st : State)
      → before.manager.sessions ≡ xs ++ s ∷ ys
      → Step lib (s, before.manager.shared) st
      → after ≡ record before {
        manager = record (before.manager) { sessions = xs ++ st.0 ∷ ys; shared = st.1 };
      }
      → ProgramStep lib before after
  retired :
      (s : Session) (xs ys : List Session) (st : State)
      → before.manager.retired ≡ xs ++ s ∷ ys
      → Step lib (s, before.manager.shared) st
      → after ≡ record before {
        manager = record (before.manager) { retired = xs ++ st.0 ∷ ys; shared = st.1 };
      }
      → ProgramStep lib before after

pub data ProgramSteps (lib : Services) (p : Program) : Program → Type 0 where
  here : ProgramSteps lib p p
  next : {q r : Program} → ProgramSteps lib p q → ProgramStep lib q r → ProgramSteps lib p r

-- What no handler of a session changes.
pub record Kept (s t : Session) : Type 0 where
  pub same_url : t.relay_url ≡ s.relay_url
  pub same_hex : t.hex_pubkey ≡ s.hex_pubkey
  pub stays_stopped : s.stopped ≡ true → t.stopped ≡ true

Move-Kept : {op : Op} {s t : Session} → Move op s t → Kept s t
unfolding begin
Move-Kept (stays e) = ground arith
Move-Kept (goes after f e) = ground arith
Move-Kept (retries delay f st lt e) = ground arith
Move-Kept (opens text instant o e) = ground arith
Move-Kept (answers text o st e) = ground arith
Move-Kept (answers_and_reads text o st e) = ground arith
Move-Kept (restarts delay o st e) = ground arith

stop-Kept : (lib : Services) (now : Now) (st : State) → Kept st.0 (stop lib now st).0
unfolding stop begin
stop-Kept lib now (s, w) = ground arith

pub Step-Kept :
    (lib : Services) {before after : State} → Step lib before after → Kept before.0 after.0
unfolding set_auth_key
Step-Kept lib {before} (completes now op o xs ys p e) =
    let moved =
      Move-Kept (complete-Move lib now op o (record (before.0) { pending = xs ++ ys }, before.1)) in
    ground (arith, moved, e)
Step-Kept lib {before} (stops now e) = let k = stop-Kept lib now before in ground (arith, k, e)
Step-Kept lib (takes_key key e) = ground (arith, e)
