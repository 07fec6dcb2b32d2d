-- ===== src/StringUtils.antt =====
-- include/monitostr/utils/string_utils.hpp, over bytes in the "C" locale.
pub mod Laws
use monitostr.Prelude.{
  ℕ, ◌+◌, ◌≡◌, refl, Bool, true, false, ◌&&◌, ◌||◌, List, [], ◌∷◌, ◌++◌, map, Text, codes, leb,
  ◌==◌, if◌then◌else◌,
}
use mathlib.Core.List.{reverse}

unfoldable pub is_lower : ℕ → Bool
is_lower c = leb b'a' c && leb c b'z'

unfoldable pub is_upper : ℕ → Bool
is_upper c = leb b'A' c && leb c b'Z'

unfoldable pub to_lower : ℕ → ℕ
unfolding is_upper
to_lower c = if is_upper c then c + 32 else c

-- Space, \t, \n, \v, \f and \r.
unfoldable pub is_space : ℕ → Bool
is_space c = c == 32 || leb 9 c && leb c 13

unfoldable pub to_lower_copy : Text → Text
unfolding to_lower
to_lower_copy s = map to_lower s

-- The first loop: `begin` moves over leading spaces.
drop_spaces : Text → Text
unfolding is_space
drop_spaces [] = []
drop_spaces (c ∷ s) = if is_space c then drop_spaces s else c ∷ s

-- The second loop: `end` moves back over the trailing spaces of what is left.
drop_spaces_back : Text → Text
unfolding is_space
drop_spaces_back [] = []
drop_spaces_back (c ∷ s) = elim (drop_spaces_back s) [
  | [] ↦ if is_space c then [] else c ∷ []
  | d ∷ t ↦ c ∷ d ∷ t
]

unfoldable pub trim_copy : Text → Text
unfolding drop_spaces drop_spaces_back
trim_copy s = drop_spaces_back (drop_spaces s)
