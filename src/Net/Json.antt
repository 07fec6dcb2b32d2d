-- ===== src/Net/Json.antt =====
-- The values of nlohmann::json that the sources take apart and build. Parsing and printing belong to
-- the library and are parameters (Net/Services).
use monitostr.Prelude.{
  ◌-◌, ◌%◌, ◌^◌, Option, none, some, Text, text_eq, if◌then◌else◌, ℤ, pos, negsuc, ltb, Bool,
}

mutual
  pub data Json : Type 0 where
    null : Json
    boolean : Bool → Json
    integer : ℤ → Json
    float : Text → Json
    string : Text → Json
    array : Items → Json
    object : Fields → Json

  pub data Items : Type 0 where
    nil : Items
    item : Json → Items → Items

  pub data Fields : Type 0 where
    end : Fields
    field : Text → Json → Fields → Fields

-- `json.contains(key)` and then `json[key]`.
unfoldable pub get_field : Text → Fields → Option Json
get_field key end = none
get_field key (field k v rest) = if text_eq k key then some v else get_field key rest

unfoldable pub member : Text → Json → Option Json
unfolding get_field
member key (object fields) = get_field key fields
member key _ = none

-- `value.get<int>()` of an integer keeps the low 32 bits.
unfoldable pub to_int : ℤ → ℤ
to_int (pos n) =
    let low = n % 2 ^ 32 in if ltb low (2 ^ 31) then pos low else negsuc (2 ^ 32 - 1 - low)
to_int (negsuc n) =
    let low = n % 2 ^ 32 in if ltb low (2 ^ 31) then negsuc low else pos (2 ^ 32 - 1 - low)
