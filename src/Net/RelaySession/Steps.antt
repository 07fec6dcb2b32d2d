-- ===== src/Net/RelaySession/Steps.antt =====
-- What may happen to one session of src/net/relay_session.cpp, one strand handler at a time.
use monitostr.Prelude.{
  ℕ, ◌+◌, ◌<◌, ◌≡◌, refl, ◌⊎◌, inl, inr, Bool, true, false, List, [], ◌∷◌, ◌++◌, Option, none, some,
  Text, ℤ, arith, Bool-cases, Option-cases, if◌then◌else◌,
}
use monitostr.Model.RelayStats.{resolving}
use monitostr.Net.Services.{Services}
use monitostr.Net.SessionSupport.{
  RelayMessageEffect, ignore, auth_challenge, event_count, end_of_stored_events,
  max_reconnect_attempts, should_reconnect_attempt, build_monitor_req_message,
  parse_relay_message_effect,
}
use monitostr.Net.SessionSupport.Reconnect.{should_reconnect_attempt_iff}
use monitostr.Nostr.AuthKey.{AuthKey}
use monitostr.Net.RelaySession.{
  Op, resolve, connect, tls, ws, read, close, fetch_nips, write_req, auth_write, timer, Session,
  Now, ErrorCode, State, begin, report, set_auth_key,
}
use monitostr.Net.RelaySession.Handlers.{
  stop, mark_error, schedule_reconnect, on_resolve, on_connect, on_tls_handshake, on_ws_handshake,
  on_fetch_nips, on_write_req, on_read, on_auth_written, on_close, on_timer, on_auth_challenge,
  auth_answer, answer_with, handle_effect, handle_message, read_on,
}

-- What a completion brings: its error, the error of the SNI call that follows a connect, the bytes
-- read, and the answer of the NIP-11 fetch.
pub record Outcome : Type 0 where
  pub error : ErrorCode
  pub sni : ErrorCode
  pub payload : Text
  pub nips : Option (List ℤ)

-- The completion handler that was passed with the call.
unfoldable pub complete : Services → Now → Op → Outcome → State → State
complete lib now resolve o st = on_resolve lib now o.error st
complete lib now connect o st = on_connect lib now o.error o.sni st
complete lib now tls o st = on_tls_handshake lib now o.error st
complete lib now ws o st = on_ws_handshake lib now o.error st
complete lib now read o st = on_read lib now o.error o.payload st
complete lib now close o st = on_close lib now st
complete lib now fetch_nips o st = on_fetch_nips lib now o.nips st
complete lib now (write_req text) o st = on_write_req lib now o.error st
complete lib now (auth_write text) o st = on_auth_written lib now o.error st
complete lib now (timer delay) o st = on_timer lib now o.error st

-- One handler runs: a completion of a pending call, `Stop`, or `SetAuthKey`.
pub data Step (lib : Services) (before after : State) : Type 0 where
  completes :
      (now : Now) (op : Op) (o : Outcome) (xs ys : List Op)
      → (before.0).pending ≡ xs ++ op ∷ ys
      → after ≡ complete lib now op o (record (before.0) { pending = xs ++ ys }, before.1)
      → Step lib before after
  stops : (now : Now) → after ≡ stop lib now before → Step lib before after
  takes_key : (key : Option AuthKey) → after ≡ set_auth_key key before → Step lib before after

pub data Steps (lib : Services) (st : State) : State → Type 0 where
  here : Steps lib st st
  next : {u v : State} → Steps lib st u → Step lib u v → Steps lib st v

-- The call that a successful completion makes next.
pub data Follows (s : Session) : Op → Op → Type 0 where
  resolved : Follows s resolve connect
  connected : Follows s connect tls
  secured : Follows s tls ws
  written : (text : Text) → Follows s (write_req text) read
  reads_on : s.stopped ≡ false → Follows s read read

-- The calls that fail into MarkError.
pub data Fails : Op → Type 0 where
  resolve_fails : Fails resolve
  connect_fails : Fails connect
  tls_fails : Fails tls
  ws_fails : Fails ws
  write_fails : (text : Text) → Fails (write_req text)
  read_fails : Fails read

-- What the completion of `op` makes of the session.
pub data Move (op : Op) (s t : Session) : Type 0 where
  stays : t ≡ s → Move op s t
  goes : (after : Op) → Follows s op after → t ≡ begin after s → Move op s t
  retries :
      (delay : ℕ)
      → Fails op
      → s.stopped ≡ false
      → s.reconnect_attempt < max_reconnect_attempts
      → t ≡ begin (timer delay) (record s { reconnect_attempt = s.reconnect_attempt + 1 })
      → Move op s t
  opens :
      (text : Text) (instant : ℕ)
      → op ≡ ws
      → t
        ≡ begin (write_req text) (
            begin fetch_nips
              (record s { reconnect_attempt = 0; ws_connected = true; req_sent_at = instant }))
      → Move op s t
  answers :
      (text : Text) → op ≡ read → s.stopped ≡ true → t ≡ begin (auth_write text) s → Move op s t
  answers_and_reads :
      (text : Text)
      → op ≡ read
      → s.stopped ≡ false
      → t ≡ begin read (begin (auth_write text) s)
      → Move op s t
  restarts :
      (delay : ℕ)
      → op ≡ timer delay
      → s.stopped ≡ false
      → t ≡ begin resolve (record s { ws_connected = false })
      → Move op s t

module _ (lib : Services) (now : Now) where
  mark_error-Move :
      (op : Op) (stage message : Text) (st : State)
      → Fails op
      → Move op st.0 (mark_error lib now stage message st).0
  unfolding mark_error begin schedule_reconnect
  mark_error-Move op stage message (s, w) f =
      elim (Bool-cases (should_reconnect_attempt s.stopped s.reconnect_attempt stage)) [
        | inl e ↦
            let r = (should_reconnect_attempt_iff s.stopped s.reconnect_attempt stage).0 e in
            rw e (retries _ f r.0 r.1 refl)
        | inr e ↦ rw e (stays refl)
      ]

  -- Answering a challenge writes at most one message.
  auth_answer_cases :
      (text : Text) (st : State)
      → ((auth_answer lib now text st).0 ≡ st.0)
        ⊎ ((message : Text) × ((auth_answer lib now text st).0 ≡ begin (auth_write message) st.0))
  unfolding auth_answer
  auth_answer_cases [] (s, w) = inl refl
  auth_answer_cases (c ∷ text) (s, w) = elim (Option-cases (lib.parse (c ∷ text))) [
    | inl e ↦ rw (e, auth_answer) (inl refl)
    | inr (json, e) ↦ rw (e, auth_answer) (inr (_, refl))
  ]

  answer_with_cases :
      (key : Option AuthKey) (challenge : Text) (st : State)
      → ((answer_with lib now key challenge st).0 ≡ st.0)
        ⊎ ((message : Text) × ((answer_with lib now key challenge st).0
              ≡ begin (auth_write message) st.0))
  unfolding answer_with
  answer_with_cases none challenge (s, w) = inl refl
  answer_with_cases (some key) challenge (s, w) = auth_answer_cases _ (s, _)

  handle_effect_cases :
      (effect : RelayMessageEffect) (st : State)
      → ((handle_effect lib now effect st).0 ≡ st.0)
        ⊎ ((message : Text) × ((handle_effect lib now effect st).0
              ≡ begin (auth_write message) st.0))
  unfolding handle_effect on_auth_challenge
  handle_effect_cases ignore st = inl refl
  handle_effect_cases (auth_challenge challenge) (s, w) =
      answer_with_cases s.auth_key challenge (s, w)
  handle_effect_cases event_count (s, w) = inl refl
  handle_effect_cases end_of_stored_events (s, w) = inl refl

  read_on-Move :
      (s : Session) (st : State)
      → (st.0 ≡ s) ⊎ ((message : Text) × (st.0 ≡ begin (auth_write message) s))
      → Move read s (read_on lib now st).0
  unfolding read_on begin
  read_on-Move s (t, w) (inl e) = rw e (go s.stopped refl)
    where
      go :
          (b : Bool)
          → s.stopped ≡ b
          → Move read s (if◌then◌else◌ {A = State} b (s, w) (begin read s, w)).0
      go true h = stays refl
      go false h = goes read (reads_on h) refl
  read_on-Move s (t, w) (inr (message, e)) = rw e (go s.stopped refl)
    where
      go :
          (b : Bool)
          → s.stopped ≡ b
          → let u = begin (auth_write message) s in
            Move read s (if◌then◌else◌ {A = State} b (u, w) (begin read u, w)).0
      go true h = answers message refl h refl
      go false h = answers_and_reads message refl h refl

  on_connect-Move :
      (error sni : ErrorCode) (st : State) → Move connect st.0 (on_connect lib now error sni st).0
  unfolding on_connect begin
  on_connect-Move (some message) sni st = mark_error-Move connect _ message st connect_fails
  on_connect-Move none (some message) (s, w) =
      mark_error-Move connect _ message (s, _) connect_fails
  on_connect-Move none none (s, w) = goes tls connected refl

  on_read-Move :
      (error : ErrorCode) (payload : Text) (st : State)
      → Move read st.0 (on_read lib now error payload st).0
  unfolding on_read handle_message
  on_read-Move (some message) payload st = mark_error-Move read _ message st read_fails
  on_read-Move none payload st =
      read_on-Move st.0 _ (handle_effect_cases (parse_relay_message_effect lib payload) st)

  on_timer-Move :
      (delay : ℕ) (error : ErrorCode) (st : State)
      → Move (timer delay) st.0 (on_timer lib now error st).0
  unfolding on_timer begin
  on_timer-Move delay (some message) st = stays refl
  on_timer-Move delay none (s, w) = go s.stopped refl
    where
      go :
          (b : Bool)
          → s.stopped ≡ b
          → Move
              (timer delay)
              s
              (if◌then◌else◌ {A = State} b
                (s, w)
                (begin resolve (record s { ws_connected = false }), report now resolving [] s w)).0
      go true h = stays refl
      go false h = restarts delay refl h refl

  on_fetch_nips-stays :
      (nips : Option (List ℤ)) (st : State) → (on_fetch_nips lib now nips st).0 ≡ st.0
  unfolding on_fetch_nips
  on_fetch_nips-stays none st = refl
  on_fetch_nips-stays (some nips) (s, w) = ground arith

  -- Every completion of every call, with any outcome, makes one of seven moves of the abstract
  -- session: it stays, goes on to the next call, retries by a timer while the budget lasts and it
  -- is not stopped, opens, answers a challenge with or without reading on, or restarts after the
  -- timer.
  pub complete-Move :
      (op : Op) (o : Outcome) (st : State) → Move op st.0 (complete lib now op o st).0
  unfolding complete on_resolve on_tls_handshake on_ws_handshake on_write_req on_auth_written
      on_close begin
  complete-Move resolve o (s, w) = go o.error
    where
      go : (error : ErrorCode) → Move resolve s (on_resolve lib now error (s, w)).0
      go (some message) = mark_error-Move resolve _ message (s, w) resolve_fails
      go none = goes connect resolved refl
  complete-Move connect o st = on_connect-Move o.error o.sni st
  complete-Move tls o (s, w) = go o.error
    where
      go : (error : ErrorCode) → Move tls s (on_tls_handshake lib now error (s, w)).0
      go (some message) = mark_error-Move tls _ message (s, w) tls_fails
      go none = goes ws secured refl
  complete-Move ws o (s, w) = go o.error
    where
      go : (error : ErrorCode) → Move ws s (on_ws_handshake lib now error (s, w)).0
      go (some message) = mark_error-Move ws _ message (s, w) ws_fails
      go none = opens (build_monitor_req_message lib s.hex_pubkey) now.steady refl refl
  complete-Move read o st = on_read-Move o.error o.payload st
  complete-Move close o (s, w) = stays refl
  complete-Move fetch_nips o st = stays (on_fetch_nips-stays o.nips st)
  complete-Move (write_req text) o (s, w) = go o.error
    where
      go : (error : ErrorCode) → Move (write_req text) s (on_write_req lib now error (s, w)).0
      go (some message) = mark_error-Move (write_req text) _ message (s, w) (write_fails text)
      go none = goes read (written text) refl
  complete-Move (auth_write text) o (s, w) = go o.error
    where
      go : (error : ErrorCode) → Move (auth_write text) s (on_auth_written lib now error (s, w)).0
      go (some message) = stays refl
      go none = stays refl
  complete-Move (timer delay) o st = on_timer-Move delay o.error st
