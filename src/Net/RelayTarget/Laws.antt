-- ===== src/Net/RelayTarget/Laws.antt =====
-- What the URL functions of src/net/relay_target.cpp promise.
use monitostr.Prelude.{
  ℕ, suc, ◌+◌, ◌≡◌, ◌≢◌, refl, ◌⊎◌, Bool, true, false, [], ◌∷◌, ◌++◌, none, some, Text, codes,
  starts_with, take, drop, ◌==◌, if◌then◌else◌, All, All-append, append_assoc, arith, length,
  drop-length-append, take-length-append, append-nil,
}
use native.Mathlib.Numerals.{add-one}
use monitostr.Net.RelayTarget.{
  RelayHostTarget, ParsedRelayUrl, find_first, is_target_start, split_relay_host_and_target,
  split_port, parse_rest, parse_relay_url,
}

find_first-append :
    (p : ℕ → Bool) (s : Text) (c : ℕ) (t : Text)
    → All (λ x. p x ≡ false) s
    → p c ≡ true
    → find_first p (s ++ c ∷ t) ≡ some (length s)
unfolding find_first
find_first-append p [] c t h e = rw e
find_first-append p (x ∷ s) c t h e = rw (h.0, find_first-append p s c t h.1 e)

find_first-none : (p : ℕ → Bool) (s : Text) → All (λ x. p x ≡ false) s → find_first p s ≡ none
unfolding find_first
find_first-none p [] h = refl
find_first-none p (x ∷ s) h = rw (h.0, find_first-none p s h.1)

-- Neither the host nor the port of a URL that is put together holds a delimiter.
abbrev pub Plain : Text → Type 0
Plain = All (λ c. (is_target_start c ≡ false) × ((c == b':') ≡ false))

-- The path that a request carries: a query alone is put behind the root path.
abbrev pub absolute : Text → Text
absolute [] = codes "/"
absolute (c ∷ t) = if c == b'?' then b'/' ∷ c ∷ t else c ∷ t

-- What may follow the host and the port: nothing, a path or a query.
abbrev pub IsTarget : Text → Type 0
IsTarget [] = Unit {0}
IsTarget (c ∷ t) = is_target_start c ≡ true

abbrev pub NoDelimiter : Text → Type 0
NoDelimiter = All (λ c. is_target_start c ≡ false)

-- The host ends at the first slash or question mark.
split_relay_host_and_target-append :
    (host target : Text)
    → All (λ c. is_target_start c ≡ false) host
    → IsTarget target
    → split_relay_host_and_target (host ++ target)
      ≡ record { host = host; target = absolute target }
unfolding split_relay_host_and_target
split_relay_host_and_target-append host [] h t =
    rw append-nil (rw (find_first-none is_target_start host h, split_relay_host_and_target) refl)
split_relay_host_and_target-append host (c ∷ target) h t =
    rw (find_first-append is_target_start host c target h t, split_relay_host_and_target)
      (rw (drop-length-append host (c ∷ target), take-length-append host (c ∷ target))
        (ground arith))

drop-suc-length-append : (s : Text) (c : ℕ) (t : Text) → drop (suc (length s)) (s ++ c ∷ t) ≡ t
drop-suc-length-append [] c t = refl
drop-suc-length-append (x ∷ s) c t = drop-suc-length-append s c t

abbrev pub scheme : Bool → Text
scheme true = codes "wss://"
scheme false = codes "ws://"

abbrev pub default_port : Bool → Text
default_port true = codes "443"
default_port false = codes "80"

Plain-NoDelimiter : (s : Text) → Plain s → NoDelimiter s
Plain-NoDelimiter [] h = tt
Plain-NoDelimiter (c ∷ s) h = (h.0.0, Plain-NoDelimiter s h.1)

Plain-no_colon : (s : Text) → Plain s → All (λ c. (c == b':') ≡ false) s
Plain-no_colon [] h = tt
Plain-no_colon (c ∷ s) h = (h.0.1, Plain-no_colon s h.1)

colon_lem : is_target_start b':' ≡ false
unfolding is_target_start
colon_lem = refl

split_port_none : (r : ParsedRelayUrl) → All (λ c. (c == b':') ≡ false) r.host → split_port r ≡ r
unfolding split_port
split_port_none r h = rw (find_first-none (λ c. c == b':') r.host h, split_port) refl

split_port_some :
    (r : ParsedRelayUrl) (host port : Text)
    → r.host ≡ host ++ b':' ∷ port
    → All (λ c. (c == b':') ≡ false) host
    → split_port r ≡ record r { host = host; port = port }
unfolding split_port
split_port_some r host port e h =
    let at : find_first (λ c. c == b':') r.host ≡ some (length host) =
      rw e (find_first-append (λ c. c == b':') host b':' port h refl) in
    let left : take (length host) r.host ≡ host = rw e (take-length-append host (b':' ∷ port)) in
    let right : drop (length host + 1) r.host ≡ port =
      rw (add-one, e) (drop-suc-length-append host b':' port) in
    rw (at, split_port) (rw (left, right) refl)

parse_scheme :
    (secure : Bool) (value : Text)
    → parse_relay_url (scheme secure ++ value) ≡ parse_rest secure (default_port secure) value
unfolding parse_relay_url starts_with
parse_scheme true value = refl
parse_scheme false value = refl

parse_rest_lem :
    (secure : Bool) (port value : Text) (h : RelayHostTarget) (r : ParsedRelayUrl)
    → split_relay_host_and_target value ≡ h
    → split_port (record { secure = secure; host = h.host; port = port; target = h.target }) ≡ r
    → r.host ≢ []
    → parse_rest secure port value ≡ some r
unfolding parse_rest
parse_rest_lem secure port value h r e f n = ground arith

module _ (secure : Bool) (host : Text) (named : host ≢ []) where
  -- For a non-empty host without delimiters, a port without slash or question mark, and a target
  -- that is empty or starts with one of these, the URL put together from scheme, host, port and
  -- target is parsed into these parts, the target made absolute.
  pub parse_relay_url_with_port :
      (port target : Text)
      → Plain host
      → NoDelimiter port
      → IsTarget target
      → parse_relay_url (scheme secure ++ (host ++ b':' ∷ port) ++ target)
        ≡ some (record { secure = secure; host = host; port = port; target = absolute target })
  parse_relay_url_with_port port target h p t =
      rw (append_assoc (scheme secure) (host ++ b':' ∷ port) target, parse_scheme)
        (parse_rest_lem secure (default_port secure) ((host ++ b':' ∷ port) ++ target)
          (record { host = host ++ b':' ∷ port; target = absolute target })
          (record { secure = secure; host = host; port = port; target = absolute target })
          (split_relay_host_and_target-append (host ++ b':' ∷ port) target
            (All-append (λ c. is_target_start c ≡ false) host (b':' ∷ port)
              (Plain-NoDelimiter host h) (colon_lem, p))
            t)
          (split_port_some _ host port refl (Plain-no_colon host h)) named)

  -- For a non-empty host without delimiters and a target that is empty or starts with a slash or
  -- question mark, the URL put together from scheme, host and target is parsed into these parts,
  -- the target made absolute, with the default port of the scheme.
  pub parse_relay_url_no_port :
      (target : Text)
      → Plain host
      → IsTarget target
      → parse_relay_url (scheme secure ++ host ++ target)
        ≡ some (record {
          secure = secure;
          host = host;
          port = default_port secure;
          target = absolute target;
        })
  parse_relay_url_no_port target h t =
      rw (append_assoc (scheme secure) host target, parse_scheme)
        (parse_rest_lem secure (default_port secure) (host ++ target)
          (record { host = host; target = absolute target })
          (record {
            secure = secure;
            host = host;
            port = default_port secure;
            target = absolute target;
          })
          (split_relay_host_and_target-append host target (Plain-NoDelimiter host h) t)
          (split_port_none _ (Plain-no_colon host h)) named)

split_port-secure : (r : ParsedRelayUrl) → (split_port r).secure ≡ r.secure
unfolding split_port
split_port-secure r = ground arith

parse_rest_sound :
    (secure : Bool) (port value : Text) (r : ParsedRelayUrl)
    → parse_rest secure port value ≡ some r
    → (r.host ≢ []) × (r.secure ≡ secure)
unfolding parse_rest
parse_rest_sound secure port value r h =
    let before : RelayHostTarget = split_relay_host_and_target value in
    ground (
      arith,
      split_port-secure
          (record { secure = secure; host = before.host; port = port; target = before.target }),
    )

-- A URL that is parsed has a non-empty host, is secure exactly if it starts with wss://, and
-- starts with wss:// or ws://.
pub parse_relay_url_sound :
    (url : Text) (r : ParsedRelayUrl)
    → parse_relay_url url ≡ some r
    → (r.host ≢ [])
      × (r.secure ≡ starts_with url (codes "wss://"))
      × ((starts_with url (codes "wss://") ≡ true) ⊎ (starts_with url (codes "ws://") ≡ true))
unfolding parse_relay_url
parse_relay_url_sound url r h = ground (
  arith,
  parse_rest_sound true (codes "443") (drop 6 url) r,
  parse_rest_sound false (codes "80") (drop 5 url) r,
)
