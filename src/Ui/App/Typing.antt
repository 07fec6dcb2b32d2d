-- ===== src/Ui/App/Typing.antt =====
-- Typing a key in insert mode (src/ui/app.cpp).
use monitostr.Prelude.{
  ℕ, ◌-◌, ◌≡◌, ◌≢◌, ◌≤◌, ◌<◌, ◌↔◌, refl, ap, ◌∙◌, ◌&&◌, false, List, [], ◌∷◌, ◌++◌, append_assoc,
  append-nil, map, Text, codes, length, length-append, arith, is_empty, starts_with, if◌then◌else◌,
}
use monitostr.StringUtils.{to_lower_copy, trim_copy}
use monitostr.Ui.Command.{authenticates}
use monitostr.Net.RelaySession.{Shared}
use monitostr.Ui.Render.Context.{insert_mode, normal_mode}
use monitostr.Ui.App.{
  App, Event, enter, character, Host, submits, asks, Reaction, takes, typed, pop_back,
  max_input_length,
}
use monitostr.Ui.App.Report.{same_in_lower, looks_like_nsec_input}
use monitostr.Ui.App.Handler.{
  on_insert, on_event, submission, press, navigates, navigation_of, apply_navigation_state,
}
use monitostr.Ui.App.Keys.{key_of, key_of_letter}

-- A run of events; `requests` come in order, and the log is passed on.
unfoldable pub on_events : Host → List Event → App → Shared → Reaction
unfolding takes
on_events host [] a w = takes a w.logs []
on_events host (event ∷ events) a w =
    let r = on_event host event a w in
    let rest = on_events host events r.app (record w { logs = r.logs }) in
    record rest { requests = r.requests ++ rest.requests }

same_in_lower-starts_with :
    (value prefix : Text) → same_in_lower value prefix ≡ starts_with (to_lower_copy value) prefix
unfolding same_in_lower starts_with to_lower_copy
same_in_lower-starts_with value [] = ground arith
same_in_lower-starts_with [] (p ∷ prefix) = refl
same_in_lower-starts_with (c ∷ value) (p ∷ prefix) =
    ground (arith, same_in_lower-starts_with value prefix)

-- The test for a secret key is that for the prefix of the lowered text.
looks_like_nsec-starts_with :
    (value : Text) → looks_like_nsec_input value ≡ starts_with (to_lower_copy value) (codes "nsec1")
unfolding looks_like_nsec_input
looks_like_nsec-starts_with value = ground (arith, same_in_lower-starts_with value (codes "nsec1"))

abbrev pub total : List Text → Text
total [] = []
total (s ∷ characters) = s ++ total characters

pop_back-append : (line : Text) (c : ℕ) → pop_back (line ++ c ∷ []) ≡ line
unfolding pop_back
pop_back-append [] c = refl
pop_back-append (d ∷ []) c = refl
pop_back-append (d ∷ e ∷ line) c = ap (◌∷◌ d) (pop_back-append (e ∷ line) c)

length-pop_back : (s : Text) → length (pop_back s) ≡ length s - 1
unfolding pop_back
length-pop_back [] = refl
length-pop_back (c ∷ []) = refl
length-pop_back (c ∷ d ∷ s) = omega (arith, length-pop_back (d ∷ s))

-- For a line of fewer than 512 bytes and a character that is not empty, Backspace after the
-- character restores the line exactly if the character has one byte.
pub pop_back-typed :
    (line s : Text)
    → length line < max_input_length
    → s ≢ []
    → (pop_back (typed line s) ≡ line) ↔ (length s ≡ 1)
unfolding typed
pop_back-typed line [] room h = absurd (h refl)
pop_back-typed line (c ∷ []) room h = ground (arith, pop_back-append line c)
pop_back-typed line (c ∷ d ∷ s) room h =
    ground (arith, length-pop_back (line ++ c ∷ d ∷ s), length-append line (c ∷ d ∷ s))

length-total :
    (line s rest : Text)
    → length (line ++ (s ++ rest)) ≤ max_input_length
    → typed line s ≡ line ++ s
unfolding typed
length-total line [] rest h = ground (arith, append-nil line)
length-total line (c ∷ s) rest h = ground (arith, length-append line (c ∷ (s ++ rest)))

-- The app while `line` stands in insert mode, and after it is entered.
entering : Text → App → App
entering line a = record a { mode = insert_mode; input_npub = line }

abbrev pub entered : App → App
entered a = record a { mode = normal_mode; input_npub = []; pending_g = false }

-- The characters one by one.
typing :
    (host : Host) (characters : List Text) (line : Text) (a : App) (w : Shared)
    → length (line ++ total characters) ≤ max_input_length
    → on_events host (map character characters ++ enter ∷ []) (entering line a) w
      ≡ takes (entered a) w.logs (submission host (trim_copy (line ++ total characters)))
unfolding on_events on_event on_insert takes entering
typing host [] line a w h = rw (append-nil line, append-nil (submission host (trim_copy line))) refl
typing host (s ∷ characters) line a w h =
    let grown = length-total line s (total characters) h in
    let h' : length ((line ++ s) ++ total characters) ≤ max_input_length =
      rw (append_assoc line s (total characters)) h in
    let rest = typing host characters (line ++ s) a w h' in
    rw (grown, rest, append_assoc line s (total characters)) refl

-- The key `i`.
begins :
    (host : Host) (a : App) (w : Shared)
    → a.mode ≡ normal_mode
    → a.input_npub ≡ []
    → on_event host (character (codes "i")) a w
      ≡ takes (entering [] (record a { pending_g = false })) w.logs []
unfolding on_event press key_of key_of_letter navigates navigation_of apply_navigation_state takes
    entering
begins host a w m n = ground arith

-- From normal mode with no input: i, characters of at most 512 bytes in all, and Return ask for
-- one thing at most, by the trimmed text: nothing if it is empty, authentication if it begins with
-- nsec1 in any case and an auth handler is set, and the submission of an npub otherwise; the log
-- is as it was, and so are the members of App but for the pending g, which is cleared.
pub typed_key :
    (host : Host) (characters : List Text) (a : App) (w : Shared)
    → a.mode ≡ normal_mode
    → a.input_npub ≡ []
    → length (total characters) ≤ max_input_length
    → let r =
        on_events host (character (codes "i") ∷ (map character characters ++ enter ∷ [])) a w in
      let key = trim_copy (total characters) in
      (r.requests ≡ (
        if is_empty key
        then []
        else if starts_with (to_lower_copy key) (codes "nsec1") && host.can_auth
        then asks (authenticates key) ∷ []
        else submits key ∷ []))
      × (r.app ≡ record a { pending_g = false })
      × (r.logs ≡ w.logs)
unfolding on_events submission takes
typed_key host characters a w m n h =
    let key = trim_copy (total characters) in
    let rest = map character characters ++ enter ∷ [] in
    let whole : on_events host (character (codes "i") ∷ rest) a w
        ≡ takes (entered a) w.logs (submission host key) =
      ap
        (λ (r : Reaction).
          let s = on_events host rest r.app (record w { logs = r.logs }) in
          record s { requests = r.requests ++ s.requests })
        (begins host a w m n)
      ∙ typing host characters [] (record a { pending_g = false }) w h in
    let nsec = looks_like_nsec-starts_with key in
    let restored : entered a ≡ record a { pending_g = false } = ground arith in
    (
      ap (λ r. r.requests) whole ∙ rw nsec refl,
      ap (λ r. r.app) whole ∙ restored,
      ap (λ r. r.logs) whole,
    )
