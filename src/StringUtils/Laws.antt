-- ===== src/StringUtils/Laws.antt =====
-- What ToLowerCopy and TrimCopy of include/monitostr/utils/string_utils.hpp promise.
use monitostr.Prelude.{
  ℕ, ◌≡◌, refl, ap, ◌∙◌, true, false, [], ◌∷◌, ◌++◌, Text, arith, Bool-cases, inl, inr, All,
}
use monitostr.StringUtils.{
  to_lower, is_space, to_lower_copy, drop_spaces, drop_spaces_back, trim_copy,
}

pub to_lower_idem : (c : ℕ) → to_lower (to_lower c) ≡ to_lower c
unfolding to_lower
to_lower_idem c = ground arith

pub to_lower_copy_idem : (s : Text) → to_lower_copy (to_lower_copy s) ≡ to_lower_copy s
unfolding to_lower_copy
to_lower_copy_idem [] = refl
to_lower_copy_idem (c ∷ s) = cc (to_lower_idem c, to_lower_copy_idem s)

abbrev pub IsSpace : ℕ → Type 0
IsSpace c = is_space c ≡ true

abbrev pub NoLeadingSpace : Text → Type 0
NoLeadingSpace [] = Unit {0}
NoLeadingSpace (c ∷ s) = is_space c ≡ false

abbrev pub NoTrailingSpace : Text → Type 0
NoTrailingSpace [] = Unit {0}
NoTrailingSpace (c ∷ []) = is_space c ≡ false
NoTrailingSpace (c ∷ d ∷ s) = NoTrailingSpace (d ∷ s)

-- `core` is the text without the spaces at its two ends.
pub record IsCore (s core : Text) : Type 0 where
  pub before : Text
  pub after : Text
  pub spells : s ≡ before ++ (core ++ after)
  pub before_spaces : All IsSpace before
  pub after_spaces : All IsSpace after
  pub head_clean : NoLeadingSpace core
  pub last_clean : NoTrailingSpace core

drop_spaces_lem :
    (s : Text)
    → (l : Text) × (s ≡ l ++ drop_spaces s) × All IsSpace l × NoLeadingSpace (drop_spaces s)
unfolding drop_spaces
drop_spaces_lem [] = ([], refl, tt, tt)
drop_spaces_lem (c ∷ s) = elim (Bool-cases (is_space c)) [
  | inl e ↦ let (l, p, q, r) = drop_spaces_lem s in rw e (c ∷ l, ap (◌∷◌ c) p, (e, q), r)
  | inr e ↦ rw e ([], refl, tt, e)
]

drop_spaces_back_lem :
    (s : Text)
    → (r : Text) × (s ≡ drop_spaces_back s ++ r)
      × All IsSpace r
      × NoTrailingSpace (drop_spaces_back s)
unfolding drop_spaces_back
drop_spaces_back_lem [] = ([], refl, tt, tt)
drop_spaces_back_lem (c ∷ s) = go (drop_spaces_back s) refl (drop_spaces_back_lem s)
  where
    go :
        (t : Text)
        → drop_spaces_back s ≡ t
        → (r : Text) × (s ≡ drop_spaces_back s ++ r)
          × All IsSpace r
          × NoTrailingSpace (drop_spaces_back s)
        → (r : Text) × (c ∷ s ≡ drop_spaces_back (c ∷ s) ++ r)
          × All IsSpace r
          × NoTrailingSpace (drop_spaces_back (c ∷ s))
    go [] e (r, p, q, u) = elim (Bool-cases (is_space c)) [
      | inl sp ↦ rw e (rw sp (c ∷ r, ap (◌∷◌ c) (rw e at p), (sp, q), tt))
      | inr sp ↦ rw e (rw sp (r, ap (◌∷◌ c) (rw e at p), q, sp))
    ]
    go (d ∷ t) e (r, p, q, u) = rw e (r, ap (◌∷◌ c) (rw e at p), q, rw e at u)

drop_spaces_back-NoLeadingSpace :
    (s : Text) → NoLeadingSpace s → NoLeadingSpace (drop_spaces_back s)
unfolding drop_spaces_back
drop_spaces_back-NoLeadingSpace [] h = tt
drop_spaces_back-NoLeadingSpace (c ∷ s) h = go (drop_spaces_back s) refl
  where
    go : (t : Text) → drop_spaces_back s ≡ t → NoLeadingSpace (drop_spaces_back (c ∷ s))
    go [] e = rw (e, drop_spaces_back) (rw h h)
    go (d ∷ t) e = rw (e, drop_spaces_back) h

-- TrimCopy gives the text without white space at both ends: the text is spaces, the result and
-- spaces, and the result neither begins nor ends with one.
pub trim_copy-IsCore : (s : Text) → IsCore s (trim_copy s)
unfolding trim_copy
trim_copy-IsCore s =
    let (l, p, q, h) = drop_spaces_lem s in
    let (r, p', q', u) = drop_spaces_back_lem (drop_spaces s) in
    record {
      before = l;
      after = r;
      spells = p ∙ ap (◌++◌ l) p';
      before_spaces = q;
      after_spaces = q';
      head_clean = drop_spaces_back-NoLeadingSpace (drop_spaces s) h;
      last_clean = u;
    }
