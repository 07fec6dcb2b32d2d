-- ===== src/Model/RelayStats/Lookup.antt =====
-- What a reader finds after a write (src/model_relay_stats.cpp).
use monitostr.Prelude.{
  ◌≡◌, refl, [], ◌∷◌, ◌++◌, Option, none, some, Text, text_eq, text_eq_iff, if◌then◌else◌, arith,
}
use monitostr.Model.RelayStats.{RelayStat, RelayStats, default_stat, find, modify, ensure_relay}

abbrev pub or_default : Option RelayStat → RelayStat
or_default none = default_stat
or_default (some v) = v

-- A write through operator[] changes the entry of its key, or makes it from a default entry when
-- there is none, and leaves every other key as it was.
pub find-modify :
    (url other : Text) (f : RelayStat → RelayStat) (m : RelayStats)
    → find other (modify url f m)
      ≡ (if text_eq url other then some (f (or_default (find url m))) else find other m)
unfolding find modify
find-modify url other f [] = refl
find-modify url other f ((k, v) ∷ m) = ground (
  arith,
  text_eq_iff k url,
  text_eq_iff k other,
  text_eq_iff url other,
  find-modify url other f m,
)

find-append :
    (url : Text) (m l : RelayStats)
    → find url (m ++ l) ≡ elim (find url m) [ none ↦ find url l | some v ↦ some v ]
unfolding find
find-append url [] l = refl
find-append url ((k, v) ∷ m) l = ground (arith, find-append url m l)

-- EnsureRelay adds a default entry with its URL if there is none, and changes no entry that
-- exists.
pub find-ensure_relay :
    (url other : Text) (m : RelayStats)
    → find other (ensure_relay url m) ≡ (elim (find other m) [
      | none ↦ if text_eq url other then some (record default_stat { relay_url = url }) else none
      | some v ↦ some v
    ])
unfolding ensure_relay find
find-ensure_relay url other m = ground (
  arith,
  text_eq_iff url other,
  find-append other m ((url, record default_stat { relay_url = url }) ∷ []),
)
