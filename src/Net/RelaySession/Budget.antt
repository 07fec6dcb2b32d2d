-- ===== src/Net/RelaySession/Budget.antt =====
-- The reconnect budget of a session (src/net/relay_session.cpp).
use monitostr.Prelude.{◌≤◌, ◌≡◌, ap, sym, subst, ◌++◌, arith}
use monitostr.Net.Services.{Services}
use monitostr.Net.SessionSupport.{max_reconnect_attempts}
use monitostr.Net.RelaySession.{Op, Session, Now, State, begin, set_auth_key}
use monitostr.Net.RelaySession.Handlers.{stop}
use monitostr.Net.RelaySession.Steps.{
  Step, completes, stops, takes_key, Steps, here, next, Move, stays, goes, retries, opens, answers,
  answers_and_reads, restarts, complete-Move,
}

abbrev pub InBudget : Session → Type 0
InBudget s = s.reconnect_attempt ≤ max_reconnect_attempts

Move-InBudget : {op : Op} {s t : Session} → Move op s t → InBudget s → InBudget t
unfolding begin
Move-InBudget (stays e) h = ground arith
Move-InBudget (goes after f e) h = ground arith
Move-InBudget (retries delay f st lt e) h = ground arith
Move-InBudget (opens text instant o e) h = ground arith
Move-InBudget (answers text o st e) h = ground arith
Move-InBudget (answers_and_reads text o st e) h = ground arith
Move-InBudget (restarts delay o st e) h = ground arith

stop-attempt :
    (lib : Services) (now : Now) (st : State)
    → (stop lib now st).0.reconnect_attempt ≡ st.0.reconnect_attempt
unfolding stop begin
stop-attempt lib now (s, w) = ground arith

Step-InBudget : (lib : Services) {st u : State} → Step lib st u → InBudget st.0 → InBudget u.0
unfolding set_auth_key
Step-InBudget lib {st} {u} (completes now op o xs ys p e) h =
    let before : Session = record (st.0) { pending = xs ++ ys } in
    subst (λ v. InBudget (v.0)) (sym e)
      (Move-InBudget (complete-Move lib now op o (before, st.1)) h)
Step-InBudget lib {st} {u} (stops now e) h =
    omega (arith, stop-attempt lib now st, ap (λ v. v.0.reconnect_attempt) e)
Step-InBudget lib {st} {u} (takes_key key e) h = subst (λ v. InBudget (v.0)) (sym e) h

-- If the reconnect counter is at most six, it is at most six after any steps of the session.
pub Steps-InBudget : (lib : Services) {st u : State} → InBudget st.0 → Steps lib st u → InBudget u.0
Steps-InBudget lib h here = h
Steps-InBudget lib h (next r st) = Step-InBudget lib st (Steps-InBudget lib h r)
