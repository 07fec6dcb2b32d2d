-- ===== src/Ui/App/Frames.antt =====
-- What a frame shows of the log and of the table (src/ui/app.cpp with src/ui/ui_renderer.cpp).
use monitostr.Prelude.{
  ℕ, zero, suc, ◌+◌, ◌-◌, ◌≡◌, ◌≢◌, ◌≤◌, ◌<◌, refl, ap, sym, ◌∙◌, Bool, true, List, [], ◌∷◌, ◌++◌,
  map, append_assoc, some, Text, length, take, drop, get_elem?, contains, starts_with,
  length-append, length-drop, arith,
}
use monitostr.StringUtils.{to_lower_copy}
use monitostr.Model.LogBuffer.{LogEntry}
use monitostr.Net.RelaySession.{Shared}
use monitostr.Ui.Navigation.{
  NavigationState, logs, line_of, matches_from, find_log_matches, advance_log_match,
}
use monitostr.Ui.Render.{first_line, drawn_logs}
use monitostr.Ui.App.{App}
use monitostr.Ui.App.Handler.{log_entries}
use monitostr.Ui.App.View.{
  followed, matches_here, searches, entries_with, visible_logs, log_lines, settled, context_of,
  frame,
}

matches_here-starts_with :
    (line query : Text)
    → matches_here line query ≡ starts_with (to_lower_copy line) (to_lower_copy query)
unfolding matches_here starts_with to_lower_copy
matches_here-starts_with line [] = ground arith
matches_here-starts_with [] (q ∷ query) = refl
matches_here-starts_with (c ∷ line) (q ∷ query) =
    ground (arith, matches_here-starts_with line query)

searches-contains :
    (line query : Text) → searches line query ≡ contains (to_lower_copy line) (to_lower_copy query)
unfolding searches contains to_lower_copy
searches-contains [] query = matches_here-starts_with [] query
searches-contains (c ∷ line) query =
    ground (arith, matches_here-starts_with (c ∷ line) query, searches-contains line query)

-- The entry after a prefix.
get_elem?-after :
    (before : List LogEntry) (entry : LogEntry) (rest : List LogEntry)
    → get_elem? (before ++ entry ∷ rest) (length before) ≡ some entry
get_elem?-after [] entry rest = refl
get_elem?-after (e ∷ before) entry rest = get_elem?-after before entry rest

hits-entries :
    (query : Text) (before entries : List LogEntry)
    → map
        (get_elem? (before ++ entries))
        (matches_from (to_lower_copy query) (length before) entries)
      ≡ map some (entries_with query entries)
unfolding matches_from entries_with line_of
hits-entries query before [] = refl
hits-entries query before (entry ∷ entries) =
    let size : length (before ++ entry ∷ []) ≡ suc (length before) =
      omega (arith, length-append before (entry ∷ [])) in
    let rest = hits-entries query (before ++ entry ∷ []) entries in
    let rest' : map (get_elem? (before ++ entry ∷ entries))
          (matches_from (to_lower_copy query) (suc (length before)) entries)
        ≡ map some (entries_with query entries) =
      rw (size, append_assoc before (entry ∷ []) entries) at rest in
    ground (
      arith,
      rest',
      get_elem?-after before entry entries,
      searches-contains (entry.timestamp ++ 32 ∷ entry.message) query,
    )

-- For a query that is not empty, the entries that a frame shows are those at the hits of the log
-- search, in order.
pub visible_logs-find_log_matches :
    (query : Text) (entries : List LogEntry)
    → query ≢ []
    → map (get_elem? entries) (find_log_matches entries query)
      ≡ map some (visible_logs query entries)
unfolding find_log_matches visible_logs
visible_logs-find_log_matches [] entries h = absurd (h refl)
visible_logs-find_log_matches (c ∷ query) entries h = hits-entries (c ∷ query) [] entries

get_elem?-map {ℓ κ} :
    {A : Type ℓ} {B : Type κ} (f : A → B) (xs : List A) (i : ℕ) {x : A}
    → get_elem? xs i ≡ some x
    → get_elem? (map f xs) i ≡ some (f x)
get_elem?-map f [] i h = cc
get_elem?-map f (x ∷ xs) zero h = cc
get_elem?-map f (x ∷ xs) (suc i) h = get_elem?-map f xs i h

get_elem?-unmap {ℓ κ} :
    {A : Type ℓ} {B : Type κ} (f : A → B) (xs : List A) (i : ℕ) {y : B}
    → get_elem? (map f xs) i ≡ some y
    → (x : A) × (get_elem? xs i ≡ some x) × (f x ≡ y)
get_elem?-unmap f [] i h = cc
get_elem?-unmap f (x ∷ xs) zero h = (x, refl, cc)
get_elem?-unmap f (x ∷ xs) (suc i) h = get_elem?-unmap f xs i h

-- In the log pane, a step to hit number `ordinal` that is entry `pos` scrolls to `pos`, two lines up.
advance_log_match-scroll :
    (entries : List LogEntry) (forward : Bool) (n : NavigationState) (pos : ℕ)
    → n.active_pane ≡ logs
    → n.logs_search_query ≢ []
    → let n' = advance_log_match entries forward n in
      get_elem? (find_log_matches entries n.logs_search_query) n'.logs_search_hit_ordinal ≡ some pos
      → (advance_log_match entries forward n).logs_scroll_lines ≡ pos - 2
unfolding advance_log_match
advance_log_match-scroll entries forward n pos h q e = ground arith

-- If a step in the log pane, for a query that is not empty, reaches as hit an entry that stands at
-- least three places further down in the log than among the hits, and more hits follow it than fit
-- on the page, then that entry is the one at the place of the hit among those shown, and the page
-- that is drawn begins below it.
pub hit_off_page :
    (entries : List LogEntry) (forward : Bool) (n : NavigationState) (pos lines : ℕ)
    (entry : LogEntry)
    → n.active_pane ≡ logs
    → n.logs_search_query ≢ []
    → let ordinal = (advance_log_match entries forward n).logs_search_hit_ordinal in
      (get_elem? (find_log_matches entries n.logs_search_query) ordinal ≡ some pos)
        × (get_elem? entries pos ≡ some entry)
        × (ordinal + 3 ≤ pos)
        × (ordinal + lines < length (visible_logs n.logs_search_query entries))
      → let n' = advance_log_match entries forward n in
        let shown = visible_logs n.logs_search_query entries in
        (get_elem? shown n'.logs_search_hit_ordinal ≡ some entry)
        × (n'.logs_search_hit_ordinal < first_line (length shown) lines n'.logs_scroll_lines)
unfolding first_line
hit_off_page entries forward n pos lines entry h q (at, is, far, more) =
    let ordinal = (advance_log_match entries forward n).logs_search_hit_ordinal in
    let hits = find_log_matches entries n.logs_search_query in
    let mapped : get_elem? (map (get_elem? entries) hits) ordinal ≡ some (get_elem? entries pos) =
      get_elem?-map (get_elem? entries) hits ordinal at in
    let same =
      ap (λ l. get_elem? l ordinal) (visible_logs-find_log_matches n.logs_search_query entries q) in
    let (e, there, eq) =
      get_elem?-unmap some (visible_logs n.logs_search_query entries) ordinal (sym same ∙ mapped) in
    let scroll = advance_log_match-scroll entries forward n pos h q at in
    (cc (there, eq, is), ground (arith, scroll))

take-all {ℓ} : {A : Type ℓ} (n : ℕ) (xs : List A) → length xs ≤ n → take n xs ≡ xs
take-all zero [] h = refl
take-all zero (x ∷ xs) h = absurd (omega (arith, h))
take-all (suc n) [] h = refl
take-all (suc n) (x ∷ xs) h = ap (◌∷◌ x) (take-all n xs (omega (arith, h)))

drawn_logs-last :
    (l : List LogEntry) (lines scroll : ℕ)
    → first_line (length l) lines scroll ≡ length l - lines
    → drawn_logs l lines scroll ≡ drop (length l - lines) l
unfolding drawn_logs
drawn_logs-last l lines scroll h =
    rw h
      (take-all lines (drop (length l - lines) l) (omega (arith, length-drop (length l - lines) l)))

-- In follow mode the frame draws the last lines of what it shows, wherever the log was scrolled to.
pub frame-follows :
    (dimx dimy : ℕ) (a : App) (w : Shared)
    → a.logs_follow ≡ true
    → let context = (frame dimx dimy a w).1 in
      let shown = visible_logs a.logs_search_query (log_entries w.logs) in
      drawn_logs context.visible_logs context.log_lines context.logs_scroll_lines
      ≡ drop (length shown - log_lines dimy) shown
unfolding frame settled context_of followed
frame-follows dimx dimy a w h =
    let shown = visible_logs a.logs_search_query (log_entries w.logs) in
    let context = (frame dimx dimy a w).1 in
    drawn_logs-last shown (log_lines dimy) context.logs_scroll_lines
      (unfold first_line in ground arith)
