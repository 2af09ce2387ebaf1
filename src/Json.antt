-- ===== src/Json.antt =====
-- Decoded JSON, as `encoding/json` puts it into `map[string]interface{}`, and float64. The dynamic
-- types that decoding can produce are the constructors of `Value`; `null` is the nil interface. A
-- nil map and an empty map are both `end`. A float64 is its bit pattern.
pub mod Order
use energy_plant_monitoring.Base.{
  ℕ, ◌+◌, ◌%◌, ◌^◌, String, Bool, true, false, not, ◌&&◌, Option, none, some, ltb, leb,
  if◌then◌else◌, str_eq,
}

abbrev pub Float64 : Type 0
Float64 = ℕ

mutual
  -- `map[string]interface{}`
  pub data Fields : Type 0 where
    end : Fields
    field : String → Value → Fields → Fields

  -- `interface{}`
  pub data Value : Type 0 where
    obj : Fields → Value
    arr : Elements → Value
    str : String → Value
    num : Float64 → Value
    bool : Bool → Value
    null : Value

  -- `[]interface{}`
  pub data Elements : Type 0 where
    no_more : Elements
    element : Value → Elements → Elements

-- `len(data) == 0`
abbrev pub is_empty : Fields → Bool
is_empty end = true
is_empty _ = false

-- `v, ok := data[key]`
unfoldable pub lookup : String → Fields → Option Value
lookup key end = none
lookup key (field k v rest) = if str_eq k key then some v else lookup key rest

-- `s, ok := data[key].(string)`
as_string : Option Value → Option String
as_string (some (str s)) = some s
as_string _ = none

unfoldable pub string_field : String → Fields → Option String
unfolding as_string
string_field key fields = as_string (lookup key fields)

-- the sign bit, and the rest of the pattern
abbrev sign_bit : ℕ
sign_bit = 0x8000000000000000

abbrev infinity : Float64
infinity = 0x7ff0000000000000

unfoldable pub magnitude : Float64 → ℕ
magnitude a = a % sign_bit

unfoldable is_negative : Float64 → Bool
is_negative a = leb sign_bit a

unfoldable pub is_nan : Float64 → Bool
unfolding magnitude
is_nan a = ltb infinity (magnitude a)

-- `a < b` for numbers: patterns of one sign are ordered as numbers, -0 equals 0
number_lt : Float64 → Float64 → Bool
unfolding magnitude is_negative
number_lt a b =
    if is_negative a
    then (if is_negative b
        then ltb (magnitude b) (magnitude a)
        else ltb 0 (magnitude a + magnitude b))
    else (if is_negative b then false else ltb (magnitude a) (magnitude b))

-- a NaN is neither less nor greater
unfoldable pub float_lt : Float64 → Float64 → Bool
unfolding is_nan number_lt
float_lt a b = not (is_nan a) && not (is_nan b) && number_lt a b

unfoldable pub float_le : Float64 → Float64 → Bool
unfolding is_nan number_lt
float_le a b = not (is_nan a) && not (is_nan b) && not (number_lt b a)
