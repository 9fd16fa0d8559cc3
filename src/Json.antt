-- ===== src/Json.antt =====
-- JavaScript values as `JSON.parse` and `unmarshall` give them, and the tests that the code makes
-- on a value of type `unknown`. An object is the list of its properties.
pub mod Text
use serverless_order_integra.Base.{
  ℕ, ℤ, pos, String, str_eq, Bool, true, false, ◌&&◌, Option, none, some, leb, ◌==◌, if◌then◌else◌,
  ◌≡◌, refl, eq_iff,
}

-- A number: an integer, or any other number by its text.
pub data Number : Type 0 where
  int : ℤ → Number
  fraction : String → Number

mutual
  pub data Value : Type 0 where
    null : Value
    bool : Bool → Value
    num : Number → Value
    str : String → Value
    arr : Items → Value
    obj : Fields → Value

  pub data Items : Type 0 where
    end_of_array : Items
    item : Value → Items → Items

  pub data Fields : Type 0 where
    end_of_object : Fields
    field : String → Value → Fields → Fields

-- `value['name']`, `none` for `undefined`
abbrev pub lookup : String → Fields → Option Value
lookup name end_of_object = none
lookup name (field key value rest) = if str_eq key name then some value else lookup name rest

-- A property that is left out when its value is `undefined`.
abbrev pub opt_field : String → Option Value → Fields → Fields
opt_field name none rest = rest
opt_field name (some value) rest = field name value rest

module _ (j k : String) where
  pub lookup-first_opt_field :
      (v w : Option Value)
      → str_eq k j ≡ false
      → lookup j (opt_field j v (opt_field k w end_of_object)) ≡ v
  lookup-first_opt_field none none h = refl
  lookup-first_opt_field none (some w) h = rw (h)
  lookup-first_opt_field (some v) w h = rw ((eq_iff j j).1 refl)

  pub lookup-second_opt_field :
      (v w : Option Value)
      → str_eq j k ≡ false
      → lookup k (opt_field j v (opt_field k w end_of_object)) ≡ w
  lookup-second_opt_field none none h = refl
  lookup-second_opt_field none (some w) h = rw ((eq_iff k k).1 refl)
  lookup-second_opt_field (some v) none h = rw (h)
  lookup-second_opt_field (some v) (some w) h = rw (h, (eq_iff k k).1 refl)

-- `isRecord(value)`: the properties of an object that is no array
abbrev pub as_record : Option Value → Option Fields
as_record (some (obj fields)) = some fields
as_record _ = none

-- `typeof value === 'string'`
abbrev pub as_text : Option Value → Option String
as_text (some (str s)) = some s
as_text _ = none

-- `value === 'text'`
abbrev pub is_text : Option Value → String → Bool
is_text (some (str s)) text = str_eq s text
is_text _ text = false

-- `value === n`
abbrev pub is_number : Option Value → ℕ → Bool
is_number (some (num (int (pos m)))) n = m == n
is_number _ n = false

-- `Number.MAX_SAFE_INTEGER`
abbrev pub max_safe_integer : ℕ
max_safe_integer = 9007199254740991

-- `Number.isSafeInteger(value) && value >= 1`
abbrev pub as_positive : Option Value → Option ℕ
as_positive (some (num (int (pos n)))) = if leb 1 n && leb n max_safe_integer then some n else none
as_positive _ = none

-- `value?.name`
abbrev pub chain : Option Value → String → Option Value
chain (some (obj fields)) name = lookup name fields
chain _ name = none
