-- ===== src/Security.antt =====
-- include/monitostr/security/secure_memory.hpp. OPENSSL_cleanse is a parameter: the bytes that it
-- leaves in a buffer.
use monitostr.Prelude.{ℕ, ◌≡◌, List, [], ◌∷◌, Text, length, All}

-- SecureZero: what the buffer holds after it.
unfoldable pub secure_zero : (List ℕ → List ℕ) → List ℕ → List ℕ
secure_zero cleanse [] = []
secure_zero cleanse (b ∷ bytes) = cleanse (b ∷ bytes)

-- SecureClearString: the string after it, and what is left in the storage that it gives back.
unfoldable pub secure_clear_string : (List ℕ → List ℕ) → Text → Text × Text
unfolding secure_zero
secure_clear_string cleanse [] = ([], [])
secure_clear_string cleanse (c ∷ value) = ([], secure_zero cleanse (c ∷ value))

-- SecurePopBack: the string after it, and what is left behind its end.
unfoldable pub secure_pop_back : (List ℕ → List ℕ) → Text → Text × Text
unfolding secure_zero
secure_pop_back cleanse [] = ([], [])
secure_pop_back cleanse (c ∷ []) = ([], secure_zero cleanse (c ∷ []))
secure_pop_back cleanse (c ∷ d ∷ value) =
    let rest = secure_pop_back cleanse (d ∷ value) in (c ∷ rest.0, rest.1)

-- Only zeros.
abbrev pub IsWiped : List ℕ → Type 0
IsWiped = All (λ b. b ≡ 0)

-- OPENSSL_cleanse fills the buffer with zeros.
abbrev pub Cleanses : (List ℕ → List ℕ) → Type 0
Cleanses cleanse =
    (bytes : List ℕ) → (length (cleanse bytes) ≡ length bytes) × IsWiped (cleanse bytes)

pub secure_zero-IsWiped :
    (cleanse : List ℕ → List ℕ) (bytes : List ℕ)
    → Cleanses cleanse
    → IsWiped (secure_zero cleanse bytes)
unfolding secure_zero
secure_zero-IsWiped cleanse [] h = tt
secure_zero-IsWiped cleanse (b ∷ bytes) h = (h (b ∷ bytes)).1

pub secure_clear_string-IsWiped :
    (cleanse : List ℕ → List ℕ) (value : Text)
    → Cleanses cleanse
    → IsWiped (secure_clear_string cleanse value).1
unfolding secure_clear_string
secure_clear_string-IsWiped cleanse [] h = tt
secure_clear_string-IsWiped cleanse (c ∷ value) h = secure_zero-IsWiped cleanse (c ∷ value) h
