-- ===== src/Net/RelaySession/Challenge.antt =====
-- NIP-42 challenges that a session reads (src/net/relay_session.cpp).
use monitostr.Prelude.{
  ℕ, ◌≡◌, refl, ap, ◌∙◌, false, [], ◌∷◌, Text, codes, some, none, text_eq, arith,
}
use monitostr.Net.Json.{Json, Items, array, item, string}
use monitostr.Net.Services.{Services}
use monitostr.Net.SessionSupport.{auth_challenge, parse_relay_message_effect}
use monitostr.Nostr.AuthKey.{AuthKey}
use monitostr.Nostr.Signer.{build_auth_event}
use monitostr.Net.RelaySession.{read, auth_write, Session, Shared, Now, State, begin}
use monitostr.Net.RelaySession.Handlers.{
  on_read, handle_message, handle_effect, on_auth_challenge, answer_with, auth_answer, auth_message,
  read_on,
}
use monitostr.Net.RelaySession.Steps.{Outcome, complete, completes, Steps, here, next}

-- A payload that a relay sends as a challenge.
abbrev pub IsChallenge : Services → Text → Text → Type 0
IsChallenge lib payload challenge =
    (rest : Items) × (lib.parse payload
      ≡ some (array (item (string (codes "AUTH")) (item (string challenge) rest))))

-- The signer answers the challenge with an event that is read back as `event`.
abbrev pub Signs : Services → Now → Session → AuthKey → Text → Json → Type 0
Signs lib now s key challenge event =
    (c : ℕ) × (text : Text) × (build_auth_event lib now.signing s.relay_url challenge
        key.privkey_bytes
      ≡ c ∷ text)
    × (lib.parse (c ∷ text) ≡ some event)

-- It depends on the session's URL alone.
Signs-url :
    (lib : Services) (now : Now) (s t : Session) (key : AuthKey) (challenge : Text) (event : Json)
    → t.relay_url ≡ s.relay_url
    → Signs lib now s key challenge event
    → Signs lib now t key challenge event
Signs-url lib now s t key challenge event e (c, text, p, q) = (c, text, rw e p, q)

module _ (lib : Services) (now : Now) where
  effect-IsChallenge :
      (payload challenge : Text)
      → IsChallenge lib payload challenge
      → parse_relay_message_effect lib payload ≡ auth_challenge challenge
  unfolding parse_relay_message_effect text_eq
  effect-IsChallenge payload challenge (rest, e) = rw (e, parse_relay_message_effect)

  answer_with_key :
      (s : Session) (w : Shared) (key : AuthKey) (challenge : Text) (event : Json)
      → Signs lib now s key challenge event
      → (answer_with lib now (some key) challenge (s, w)).0
        ≡ begin (auth_write (auth_message lib now event)) s
  unfolding answer_with auth_answer begin
  answer_with_key s w key challenge event (c, text, e, f) =
      rw (e, answer_with) (rw (f, auth_answer) refl)

  read_on_live : (st : State) → (st.0).stopped ≡ false → (read_on lib now st).0 ≡ begin read st.0
  unfolding read_on begin
  read_on_live (s, w) h = ground arith

  -- A session that is not stopped and has a key, on reading an AUTH challenge that the signer
  -- answers with an event, begins to write that event and then begins the next read, and nothing
  -- else of the session changes.
  pub on_read-IsChallenge :
      (s : Session) (w : Shared) (key : AuthKey) (payload challenge : Text) (event : Json)
      → s.auth_key ≡ some key
      → s.stopped ≡ false
      → IsChallenge lib payload challenge
      → Signs lib now s key challenge event
      → (on_read lib now none payload (s, w)).0
        ≡ begin read (begin (auth_write (auth_message lib now event)) s)
  unfolding on_read handle_message answer_with on_auth_challenge
  on_read-IsChallenge s w key payload challenge event k live is signs =
      let st = handle_message lib now payload (s, w) in
      let handled : st.0 ≡ begin (auth_write (auth_message lib now event)) s =
        ap (λ effect. (handle_effect lib now effect (s, w)).0)
          (effect-IsChallenge payload challenge is)
        ∙ ap (λ q. (answer_with lib now q challenge (s, w)).0) k
        ∙ answer_with_key s w key challenge event signs in
      read_on_live st (ap (λ t. t.stopped) handled ∙ live) ∙ ap (begin read) handled

  -- A session that is not stopped, has a key and only a read pending, and reads the same signed
  -- challenge twice, reaches a state with two writes of the answer pending at once.
  pub challenges_overlap :
      (s : Session) (w : Shared) (key : AuthKey) (payload challenge : Text) (event : Json)
      → s.pending ≡ read ∷ []
      → s.auth_key ≡ some key
      → s.stopped ≡ false
      → IsChallenge lib payload challenge
      → Signs lib now s key challenge event
      → let message = auth_message lib now event in
        (st : State) × Steps lib (s, w) st
        × ((st.0).pending ≡ read ∷ auth_write message ∷ auth_write message ∷ [])
  unfolding complete begin
  challenges_overlap s w key payload challenge event p k live is signs =
      let o : Outcome = record { error = none; sni = none; payload = payload; nips = none } in
      let s₀ : Session = record s { pending = [] } in
      let one = on_read lib now none payload (s₀, w) in
      let e = on_read-IsChallenge s₀ w key payload challenge event k live is signs in
      let s₁ : Session = record (one.0) {
        pending = auth_write (auth_message lib now event) ∷ [];
      } in
      let two = on_read lib now none payload (s₁, one.1) in
      let f =
        on_read-IsChallenge s₁ one.1 key payload challenge event (ap (λ t. t.auth_key) e ∙ k)
          (ap (λ t. t.stopped) e ∙ live) is
          (Signs-url lib now s₀ s₁ key challenge event (ap (λ t. t.relay_url) e) signs) in
      (
        two,
        next (next here (completes now read o [] [] p refl)) (
            completes now read o [] (auth_write (auth_message lib now event) ∷ [])
              (ap (λ t. t.pending) e) refl),
        ap (λ t. t.pending) f,
      )
