-- ===== src/Net/RelaySession/Chain.antt =====
-- The pending calls of a session among resolve, connect, the two handshakes, the REQ, the reads and
-- the reconnect timer (src/net/relay_session.cpp).
use monitostr.Prelude.{ℕ, ◌+◌, ◌≤◌, ◌≡◌, refl, ap, List, [], ◌∷◌, ◌++◌, arith}
use monitostr.Net.Services.{Services}
use monitostr.Net.RelaySession.{
  Op, resolve, connect, tls, ws, read, close, fetch_nips, write_req, auth_write, timer, Session,
  Now, State, begin, set_auth_key,
}
use monitostr.Net.RelaySession.Handlers.{stop}
use monitostr.Net.RelaySession.Steps.{
  Step, completes, stops, takes_key, Steps, here, next, Move, stays, goes, retries, opens, answers,
  answers_and_reads, restarts, complete-Move, Follows, resolved, connected, secured, written,
  reads_on, Fails, resolve_fails, connect_fails, tls_fails, ws_fails, write_fails, read_fails,
}

module _ (weight : Op → ℕ) where
  unfoldable pub total : List Op → ℕ
  total [] = 0
  total (op ∷ ops) = weight op + total ops

  pub total-middle :
      (xs : List Op) (op : Op) (ys : List Op) → total (xs ++ op ∷ ys) ≡ weight op + total (xs ++ ys)
  unfolding total
  total-middle [] op ys = refl
  total-middle (x ∷ xs) op ys = omega (arith, total-middle xs op ys)

-- One for a call of the chain.
unfoldable pub link : Op → ℕ
link resolve = 1
link connect = 1
link tls = 1
link ws = 1
link read = 1
link close = 0
link fetch_nips = 0
link (write_req text) = 1
link (auth_write text) = 0
link (timer delay) = 1

Follows-link : {s : Session} {op after : Op} → Follows s op after → link after ≤ link op
unfolding link
Follows-link resolved = omega arith
Follows-link connected = omega arith
Follows-link secured = omega arith
Follows-link (written text) = omega arith
Follows-link (reads_on h) = omega arith

Fails-link : {op : Op} → Fails op → link op ≡ 1
unfolding link
Fails-link resolve_fails = refl
Fails-link connect_fails = refl
Fails-link tls_fails = refl
Fails-link ws_fails = refl
Fails-link (write_fails text) = refl
Fails-link read_fails = refl

Move-link :
    {op : Op} {s t : Session} → Move op s t → total link t.pending ≤ link op + total link s.pending
unfolding begin total link
Move-link (stays e) = ground arith
Move-link (goes after f e) = ground (arith, Follows-link f)
Move-link (retries delay f st lt e) = ground (arith, Fails-link f)
Move-link (opens text instant o e) = ground arith
Move-link (answers text o st e) = ground arith
Move-link (answers_and_reads text o st e) = ground arith
Move-link (restarts delay o st e) = ground arith

stop-link :
    (lib : Services) (now : Now) (st : State)
    → total link (stop lib now st).0.pending ≡ total link (st.0).pending
unfolding stop begin total link
stop-link lib now (s, w) = ground arith

Step-link :
    (lib : Services) {st u : State}
    → Step lib st u
    → total link (u.0).pending ≤ total link (st.0).pending
unfolding set_auth_key
Step-link lib {st} {u} (completes now op o xs ys p e) =
    let before : Session = record (st.0) { pending = xs ++ ys } in
    omega (
      arith,
      ap (λ v. total link (v.0).pending) e,
      Move-link (complete-Move lib now op o (before, st.1)),
      ap (total link) p,
      total-middle link xs op ys,
    )
Step-link lib {st} {u} (stops now e) =
    omega (arith, stop-link lib now st, ap (λ v. total link (v.0).pending) e)
Step-link lib {st} {u} (takes_key key e) = omega (arith, ap (λ v. total link (v.0).pending) e)

-- If at most one call among resolve, connect, the two handshakes, the REQ write, read and the
-- timer is pending, that stays so through any steps: completions in any order and with any
-- outcome, stops and key changes.
pub Steps-link :
    (lib : Services) {st u : State}
    → total link (st.0).pending ≤ 1
    → Steps lib st u
    → total link (u.0).pending ≤ 1
Steps-link lib h here = h
Steps-link lib h (next r s) = omega (arith, Step-link lib s, Steps-link lib h r)
