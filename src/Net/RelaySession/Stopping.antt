-- ===== src/Net/RelaySession/Stopping.antt =====
-- What is left of a session after `Stop` (src/net/relay_session.cpp).
use monitostr.Prelude.{ℕ, suc, ◌+◌, ◌≤◌, ◌<◌, ◌≡◌, ap, true, List, ◌∷◌, ◌++◌, arith}
use monitostr.Net.Services.{Services}
use monitostr.Net.RelaySession.{
  Op, resolve, connect, tls, ws, read, close, fetch_nips, write_req, auth_write, timer, Session,
  Now, State, begin,
}
use monitostr.Net.RelaySession.Chain.{total, total-middle}
use monitostr.Net.RelaySession.Steps.{
  Outcome, complete, Move, stays, goes, retries, opens, answers, answers_and_reads, restarts,
  complete-Move, Follows, resolved, connected, secured, written, reads_on,
}

-- How many handlers a call can still lead to, in a session that has been stopped.
pub cost : Op → ℕ
cost resolve = 8
cost connect = 7
cost tls = 6
cost ws = 5
cost (write_req text) = 3
cost read = 2
cost close = 1
cost fetch_nips = 1
cost (auth_write text) = 1
cost (timer delay) = 1

Follows-cost :
    {s : Session} {op after : Op} → s.stopped ≡ true → Follows s op after → cost after < cost op
unfolding cost
Follows-cost h resolved = omega arith
Follows-cost h connected = omega arith
Follows-cost h secured = omega arith
Follows-cost h (written text) = omega arith
Follows-cost h (reads_on k) = ground arith

cost_pos : (op : Op) → 0 < cost op
unfolding cost
cost_pos op = ground arith

Move-cost :
    {op : Op} {s t : Session}
    → s.stopped ≡ true
    → Move op s t
    → (t.stopped ≡ true) × (total cost t.pending < cost op + total cost s.pending)
unfolding begin total cost
Move-cost {op} h (stays e) = ground (arith, cost_pos op)
Move-cost h (goes after f e) = ground (arith, Follows-cost h f)
Move-cost h (retries delay f st lt e) = ground arith
Move-cost h (opens text instant o e) = ground arith
Move-cost h (answers text o st e) = ground arith
Move-cost h (answers_and_reads text o st e) = ground arith
Move-cost h (restarts delay o st e) = ground arith

-- `n` completions run, one after the other.
pub data Completions (lib : Services) (st : State) : ℕ → State → Type 0 where
  none_yet : Completions lib st 0 st
  one_more :
      {n : ℕ} {u : State} (now : Now) (op : Op) (o : Outcome) (xs ys : List Op)
      → Completions lib st n u
      → (u.0).pending ≡ xs ++ op ∷ ys
      → Completions lib st
          (suc n)
          (complete lib now op o (record (u.0) { pending = xs ++ ys }, u.1))

-- From a stopped state, after any n completions of pending calls, whatever they bring, the session
-- is still stopped, and n plus the cost of the pending calls is at most their cost at the
-- beginning.
pub stopped_winds_down :
    (lib : Services) {st : State} {n : ℕ} {u : State}
    → (st.0).stopped ≡ true
    → Completions lib st n u
    → ((u.0).stopped ≡ true) × (n + total cost (u.0).pending ≤ total cost (st.0).pending)
stopped_winds_down lib h none_yet = (h, omega arith)
stopped_winds_down lib h (one_more {n = n} {u = u} now op o xs ys r p) =
    let rest = stopped_winds_down lib h r in
    let moved =
      Move-cost rest.0 (complete-Move lib now op o (record (u.0) { pending = xs ++ ys }, u.1)) in
    (moved.0, omega (arith, moved.1, rest.1, ap (total cost) p, total-middle cost xs op ys))
