-- ===== src/Ui/App/Wiping.antt =====
-- Backspace in src/ui/app.cpp and SecurePopBack of include/monitostr/security/secure_memory.hpp.
use monitostr.Prelude.{ℕ, ◌≡◌, refl, ap, List, [], ◌∷◌, Text}
use monitostr.Security.{secure_pop_back, IsWiped, Cleanses, secure_zero-IsWiped}
use monitostr.Ui.App.{pop_back}

-- SecurePopBack takes the last byte off as Backspace does in this model, and the byte behind the end
-- is zero.
pub secure_pop_back-pop_back :
    (cleanse : List ℕ → List ℕ) (value : Text)
    → Cleanses cleanse
    → let r = secure_pop_back cleanse value in (r.0 ≡ pop_back value) × IsWiped r.1
unfolding secure_pop_back pop_back
secure_pop_back-pop_back cleanse [] h = (refl, tt)
secure_pop_back-pop_back cleanse (c ∷ []) h = (refl, secure_zero-IsWiped cleanse (c ∷ []) h)
secure_pop_back-pop_back cleanse (c ∷ d ∷ value) h =
    let rest = secure_pop_back-pop_back cleanse (d ∷ value) h in (ap (◌∷◌ c) rest.0, rest.1)
