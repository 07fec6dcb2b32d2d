-- ===== src/Nip19/Bech32/RoundTrip.antt =====
-- Encoding 32 bytes and decoding the text, by src/nip19/bech32_internal.hpp.
use monitostr.Prelude.{
  ℕ, zero, suc, ◌-◌, ◌<◌, Bool, true, false, not, ◌||◌, ◌&&◌, List, [], ◌∷◌, ◌++◌, map, Option,
  none, some, Text, ◌==◌, ==_iff, ◌≡◌, ◌≢◌, refl, sym, ap, ◌∙◌, All, All-append, append_assoc,
  arith, length, length-append, length-map, take, take-length-append, text_eq_iff, ltb,
}
use mathlib.Core.List.{map-append}
use monitostr.StringUtils.{is_upper, to_lower, to_lower_copy}
use monitostr.Nip19.Convert.{convert_bits}
use monitostr.Nip19.Convert.Value.{Fits}
use monitostr.Nip19.Convert.RoundTrip.{convert_bits_round_trip}
use monitostr.Nip19.Bech32.{
  char_to_value, symbol, has_upper, split_last_one, behind, join, read_symbols, six_symbols,
  create_checksum, write_bech32, encode_bech32_32_bytes, decode_bech32_32_bytes, check_parts,
  check_values, check_bytes, decoded,
}
use monitostr.Nip19.Bech32.Checksum.{verify_checksum-create_checksum}

is_value : Option ℕ → ℕ → Bool
is_value none v = false
is_value (some u) v = u == v

is_value_lem : (o : Option ℕ) (v : ℕ) → is_value o v ≡ true → o ≡ some v
unfolding is_value
is_value_lem none v h = ground arith
is_value_lem (some u) v h = ap (λ n. some n) ((==_iff u v).0 h)

-- A symbol is read back, is not the separator, and is no capital letter.
symbol_test : ℕ → Bool
unfolding is_value
symbol_test v =
    is_value (char_to_value (symbol v)) v && (not (symbol v == b'1') && not (is_upper (symbol v)))

all_below : ℕ → Bool
unfolding symbol_test
all_below zero = true
all_below (suc n) = symbol_test n && all_below n

all_below_lem : (n v : ℕ) → all_below n ≡ true → v < n → symbol_test v ≡ true
unfolding all_below
all_below_lem zero v h lt = absurd (omega arith)
all_below_lem (suc n) v h lt = ground (arith, all_below_lem n v)

all_symbols : all_below 32 ≡ true
unfolding all_below char_to_value symbol is_upper
all_symbols = refl

symbol_lem :
    (v : ℕ)
    → v < 32
    → (char_to_value (symbol v) ≡ some v)
      × ((symbol v == b'1') ≡ false)
      × (is_upper (symbol v) ≡ false)
unfolding symbol_test
symbol_lem v h =
    let t = all_below_lem 32 v all_symbols h in
    (is_value_lem (char_to_value (symbol v)) v (ground arith), ground arith, ground arith)

read_symbols-symbols : (vs : List ℕ) → All (Fits 5) vs → read_symbols (map symbol vs) ≡ some vs
unfolding read_symbols join
read_symbols-symbols [] h = refl
read_symbols-symbols (v ∷ vs) h = rw ((symbol_lem v h.0).0, read_symbols-symbols vs h.1) refl

no_separator : (vs : List ℕ) → All (Fits 5) vs → split_last_one (map symbol vs) ≡ none
unfolding split_last_one behind
no_separator [] h = refl
no_separator (v ∷ vs) h = rw (no_separator vs h.1, (symbol_lem v h.0).1) refl

split_last_one_lem :
    (hrp rest : Text)
    → split_last_one rest ≡ none
    → split_last_one (hrp ++ b'1' ∷ rest) ≡ some (hrp, rest)
unfolding split_last_one behind
split_last_one_lem [] rest h = rw h refl
split_last_one_lem (c ∷ hrp) rest h = rw (split_last_one_lem hrp rest h) refl

has_upper-append : (s t : Text) → has_upper (s ++ t) ≡ (has_upper s || has_upper t)
unfolding has_upper
has_upper-append [] t = refl
has_upper-append (c ∷ s) t = ground (arith, has_upper-append s t)

has_upper-symbols : (vs : List ℕ) → All (Fits 5) vs → has_upper (map symbol vs) ≡ false
unfolding has_upper
has_upper-symbols [] h = refl
has_upper-symbols (v ∷ vs) h = ground (arith, symbol_lem v h.0, has_upper-symbols vs h.1)

to_lower_copy_fixed : (s : Text) → has_upper s ≡ false → to_lower_copy s ≡ s
unfolding has_upper to_lower_copy to_lower
to_lower_copy_fixed [] h = refl
to_lower_copy_fixed (c ∷ s) h = ground (arith, to_lower_copy_fixed s)

create_checksum-Fits : (hrp : Text) (values : List ℕ) → All (Fits 5) (create_checksum hrp values)
unfolding create_checksum
create_checksum-Fits hrp values = grind arith

without_checksum :
    (hrp : Text) (values : List ℕ)
    → take
        (length (values ++ create_checksum hrp values) - 6)
        (values ++ create_checksum hrp values)
      ≡ values
unfolding create_checksum six_symbols
without_checksum hrp values =
    let chk = create_checksum hrp values in
    let e : length (values ++ chk) - 6 ≡ length values = omega (arith, length-append values chk) in
    ap (λ n. take n (values ++ chk)) e ∙ take-length-append values chk

check_values_lem :
    (hrp : Text) (bytes data5 : List ℕ)
    → length bytes ≡ 32
    → convert_bits 5 8 false data5 ≡ some bytes
    → check_values hrp (some (data5 ++ create_checksum hrp data5)) ≡ decoded bytes
unfolding check_values check_bytes
check_values_lem hrp bytes data5 size back =
    rw (verify_checksum-create_checksum hrp data5, without_checksum hrp data5, back, size) refl

long_enough :
    (hrp : Text) (values : List ℕ)
    → ltb (length (map symbol (values ++ create_checksum hrp values))) 6 ≡ false
unfolding create_checksum six_symbols
long_enough hrp values =
    let chk = create_checksum hrp values in
    ground (arith, length-map symbol (values ++ chk), length-append values chk)

check_parts_lem :
    (hrp : Text) (bytes data5 : List ℕ)
    → hrp ≢ []
    → length bytes ≡ 32
    → All (Fits 5) data5
    → convert_bits 5 8 false data5 ≡ some bytes
    → check_parts hrp (some (hrp, map symbol (data5 ++ create_checksum hrp data5))) ≡ decoded bytes
unfolding check_parts
check_parts_lem [] bytes data5 nonempty size fit back = absurd (nonempty refl)
check_parts_lem (c ∷ hrp) bytes data5 nonempty size fit back =
    let chk = create_checksum (c ∷ hrp) data5 in
    let fit' = All-append (Fits 5) data5 chk fit (create_checksum-Fits (c ∷ hrp) data5) in
    rw
      (
        long_enough (c ∷ hrp) data5,
        (text_eq_iff (c ∷ hrp) (c ∷ hrp)).1 refl,
        read_symbols-symbols (data5 ++ chk) fit',
      )
      (check_values_lem (c ∷ hrp) bytes data5 size back)

pub written :
    (hrp : Text) (data5 : List ℕ)
    → write_bech32 hrp (some data5) ≡ hrp ++ b'1' ∷ map symbol (data5 ++ create_checksum hrp data5)
unfolding write_bech32
written hrp data5 =
    let chk = create_checksum hrp data5 in
    append_assoc hrp (b'1' ∷ map symbol data5) (map symbol chk)
    ∙ ap (λ l. hrp ++ b'1' ∷ l) (sym (map-append symbol data5 chk))

-- Lower-case text with a prefix and symbols reaches the checks of its parts.
decode_text :
    (hrp : Text) (values : List ℕ)
    → hrp ≢ []
    → has_upper hrp ≡ false
    → All (Fits 5) values
    → decode_bech32_32_bytes (hrp ++ b'1' ∷ map symbol values) hrp
      ≡ check_parts hrp (some (hrp, map symbol values))
unfolding decode_bech32_32_bytes is_upper
decode_text [] values nonempty lower fit = absurd (nonempty refl)
decode_text (c ∷ hrp) values nonempty lower fit =
    let text = c ∷ hrp ++ b'1' ∷ map symbol values in
    let lower' : has_upper text ≡ false =
      has_upper-append (c ∷ hrp) (b'1' ∷ map symbol values)
      ∙ rw (lower, has_upper, is_upper, has_upper-symbols values fit) refl in
    let parts = split_last_one_lem (c ∷ hrp) (map symbol values) (no_separator values fit) in
    rw (to_lower_copy_fixed text lower', parts) (ground (arith, lower'))

-- What is written for the symbols of `data5` is read back to the bytes they stand for.
decode_symbols :
    (hrp : Text) (bytes data5 : List ℕ)
    → hrp ≢ []
    → has_upper hrp ≡ false
    → length bytes ≡ 32
    → All (Fits 5) data5
    → convert_bits 5 8 false data5 ≡ some bytes
    → decode_bech32_32_bytes (write_bech32 hrp (some data5)) hrp ≡ decoded bytes
decode_symbols hrp bytes data5 nonempty lower size fit back =
    let chk = create_checksum hrp data5 in
    let fit' = All-append (Fits 5) data5 chk fit (create_checksum-Fits hrp data5) in
    ap (λ t. decode_bech32_32_bytes t hrp) (written hrp data5)
    ∙ decode_text hrp (data5 ++ chk) nonempty lower fit'
    ∙ check_parts_lem hrp bytes data5 nonempty size fit back

-- For any 32 bytes and any non-empty prefix without capital letters, decoding the bech32 text that
-- is encoded for them gives the bytes back.
pub decode-encode :
    (hrp : Text) (bytes : List ℕ)
    → hrp ≢ []
    → has_upper hrp ≡ false
    → length bytes ≡ 32
    → All (Fits 8) bytes
    → decode_bech32_32_bytes (encode_bech32_32_bytes hrp bytes) hrp ≡ decoded bytes
unfolding encode_bech32_32_bytes
decode-encode hrp bytes nonempty lower size fit =
    let c = convert_bits_round_trip bytes fit in
    rw (size, c.1) (decode_symbols hrp bytes c.0 nonempty lower size c.2 c.4)
