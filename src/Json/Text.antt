-- ===== src/Json/Text.antt =====
-- `JSON.stringify`, without spaces.
use Prim.Native.Nat.{◌/◌, ◌%◌}
use Prim.Native.Char.{code}
use Prim.Native.String.{◌++◌ as str_append}
use serverless_order_integra.Base.{
  pos, negsuc, ℕ, zero, suc, String, true, false, ltb, ◌==◌, if◌then◌else◌,
}
use serverless_order_integra.Json.{
  Number, int, fraction, Value, null, bool, num, str, arr, obj, Items, end_of_array, item, Fields,
  end_of_object, field,
}

infixr 6 ◌⧺◌
abbrev ◌⧺◌ : String → String → String
◌⧺◌ = str_append

abbrev hex_digit : ℕ → String
hex_digit n =
    if n == 0
    then "0"
    else if n == 1
    then "1"
    else if n == 2
    then "2"
    else if n == 3
    then "3"
    else if n == 4
    then "4"
    else if n == 5
    then "5"
    else if n == 6
    then "6"
    else if n == 7
    then "7"
    else if n == 8
    then "8"
    else if n == 9
    then "9"
    else if n == 10
    then "a"
    else if n == 11
    then "b"
    else if n == 12
    then "c"
    else if n == 13
    then "d"
    else if n == 14
    then "e"
    else "f"

-- The digits of `n`, by at most `fuel + 1` of them.
unfoldable pub decimal_on : ℕ → ℕ → String
decimal_on zero n = hex_digit (n % 10)
decimal_on (suc fuel) n =
    let high = decimal_on fuel (n / 10) in
    if ltb n 10 then hex_digit n else high ⧺ hex_digit (n % 10)

-- `String(n)`: a number has fewer digits than its size.
unfoldable pub decimal : ℕ → String
decimal n = decimal_on n n

abbrev number_text : Number → String
number_text (int (pos n)) = decimal n
number_text (int (negsuc n)) = "-" ⧺ decimal (suc n)
number_text (fraction text) = text

-- A character inside a quoted text.
abbrev escape : ℕ → String → String
escape c as_is =
    if c == 34
    then "\\\""
    else if c == 92
    then "\\\\"
    else if c == 8
    then "\\b"
    else if c == 9
    then "\\t"
    else if c == 10
    then "\\n"
    else if c == 12
    then "\\f"
    else if c == 13
    then "\\r"
    else if ltb c 32
    then "\\u00" ⧺ hex_digit (c / 16) ⧺ hex_digit (c % 16)
    else as_is

unfoldable pub escaped : String → String
escaped String.[] = ""
escaped (String.◌∷◌ c s) = escape (code c) (String.◌∷◌ c String.[]) ⧺ escaped s

abbrev quoted : String → String
quoted s = "\"" ⧺ escaped s ⧺ "\""

unfoldable mutual
  pub stringify : Value → String
  stringify null = "null"
  stringify (bool true) = "true"
  stringify (bool false) = "false"
  stringify (num n) = number_text n
  stringify (str s) = quoted s
  stringify (arr xs) = "[" ⧺ stringify_items xs ⧺ "]"
  stringify (obj fs) = "{" ⧺ stringify_fields fs ⧺ "}"

  stringify_items : Items → String
  stringify_items end_of_array = ""
  stringify_items (item x xs) = stringify x ⧺ stringify_more xs

  stringify_more : Items → String
  stringify_more end_of_array = ""
  stringify_more (item x xs) = "," ⧺ stringify x ⧺ stringify_more xs

  stringify_fields : Fields → String
  stringify_fields end_of_object = ""
  stringify_fields (field k v fs) = quoted k ⧺ ":" ⧺ stringify v ⧺ stringify_rest fs

  stringify_rest : Fields → String
  stringify_rest end_of_object = ""
  stringify_rest (field k v fs) = "," ⧺ quoted k ⧺ ":" ⧺ stringify v ⧺ stringify_rest fs
