-- ===== src/App/Validation/CreateOrder.antt =====
-- `validateCreateOrderRequest` (src/application/create-order-validation.ts).
pub mod Acceptable
pub mod Reads
pub mod Bounds
pub mod Accepts
use Prim.Native.Char.{code}
use Prim.Native.String.{◌++◌ as str_append}
use serverless_order_integra.Base.{
  ℕ, suc, ◌+◌, ℤ, pos, ◌+ℤ◌, ◌*ℤ◌, is_within, to_natural, String, str_eq, str_length, Bool, true,
  false, not, ◌&&◌, ◌||◌, Option, none, some, List, [], ◌∷◌, ◌++◌, map, leb, ltb, ◌==◌,
  if◌then◌else◌,
}
use serverless_order_integra.Domain.Order.{Money, OrderLine, DeliveryLocation}
use serverless_order_integra.Json.{
  Value, obj, arr, Items, end_of_array, item, Fields, lookup, as_record, max_safe_integer,
}
use serverless_order_integra.Json.Text.{decimal}
use serverless_order_integra.App.CreateOrder.{CreateOrderRequest}
use serverless_order_integra.App.Validation.{
  ValidationIssue, ValidationResult, valid, invalid, Checked, joined, pure, ◌>>=◌, ◌>>◌, issue,
  note_if, add_unknown_field_issues, any_text, read_string, read_integer, result_of,
}

abbrev pub request_names : List String
request_names = "merchantOrderId" ∷ "items" ∷ "pickup" ∷ "dropoff" ∷ []

abbrev pub line_names : List String
line_names = "itemReference" ∷ "description" ∷ "quantity" ∷ "unitPrice" ∷ []

abbrev pub money_names : List String
money_names = "amountMinor" ∷ "currency" ∷ []

abbrev pub location_names : List String
location_names = "addressLine" ∷ "city" ∷ "postalCode" ∷ "countryCode" ∷ []

abbrev all_capitals : String → Bool
all_capitals String.[] = true
all_capitals (String.◌∷◌ c s) = leb 65 (code c) && leb (code c) 90 && all_capitals s

-- `/^[A-Z]{n}$/`
unfoldable pub capitals_pattern : ℕ → String → Bool
capitals_pattern n s = all_capitals s && str_length s == n

-- `Money` and `OrderLine` before the issues are known: the numbers may be out of range.
pub record DraftMoney : Type 0 where
  pub amount_minor : ℤ
  pub currency : String

pub record DraftLine : Type 0 where
  pub item_reference : String
  pub description : String
  pub quantity : ℤ
  pub unit_price : DraftMoney

abbrev pub money_of : Option ℤ → Option String → Option DraftMoney
money_of (some amount) (some currency) =
    some (record { amount_minor = amount; currency = currency })
money_of _ _ = none

unfoldable pub read_money_fields : Option Fields → String → Checked (Option DraftMoney)
read_money_fields none pointer = (none, issue pointer "must be an object")
read_money_fields (some fields) pointer = do
  add_unknown_field_issues fields money_names pointer
  amount ←
      read_integer (lookup "amountMinor" fields) (str_append pointer "/amountMinor") 0
        max_safe_integer
  currency ←
      read_string (lookup "currency" fields) (str_append pointer "/currency") 3 3
        (capitals_pattern 3)
  pure (money_of amount currency)

abbrev pub read_money : Option Value → String → Checked (Option DraftMoney)
read_money value pointer = read_money_fields (as_record value) pointer

abbrev pub line_of : Option String → Option String → Option ℤ → Option DraftMoney → Option DraftLine
line_of (some reference) (some description) (some quantity) (some price) = some (record {
  item_reference = reference;
  description = description;
  quantity = quantity;
  unit_price = price;
})
line_of _ _ _ _ = none

unfoldable pub read_line_fields : Option Fields → String → Checked (Option DraftLine)
read_line_fields none pointer = (none, issue pointer "must be an object")
read_line_fields (some fields) pointer = do
  add_unknown_field_issues fields line_names pointer
  reference ←
      read_string (lookup "itemReference" fields) (str_append pointer "/itemReference") 1 100
        any_text
  description ←
      read_string (lookup "description" fields) (str_append pointer "/description") 1 200 any_text
  quantity ← read_integer (lookup "quantity" fields) (str_append pointer "/quantity") 1 100
  price ← read_money (lookup "unitPrice" fields) (str_append pointer "/unitPrice")
  pure (line_of reference description quantity price)

abbrev pub read_order_line : Value → ℕ → Checked (Option DraftLine)
read_order_line value index =
    read_line_fields (as_record (some value)) (str_append "#/items/" (decimal index))

abbrev pub item_count : Items → ℕ
item_count end_of_array = 0
item_count (item x xs) = suc (item_count xs)

-- `value.map(...)`, and the lines when none of them is `undefined`.
abbrev pub cons_line : Option DraftLine → Option (List DraftLine) → Option (List DraftLine)
cons_line (some line) (some lines) = some (line ∷ lines)
cons_line _ _ = none

unfoldable pub read_each_line : ℕ → Items → Checked (Option (List DraftLine))
read_each_line index end_of_array = pure (some [])
read_each_line index (item x xs) = do
  line ← read_order_line x index
  lines ← read_each_line (suc index) xs
  pure (cons_line line lines)

unfoldable pub read_order_lines : Option Value → Checked (Option (List DraftLine))
read_order_lines (some (arr items)) = do
  note_if (ltb (item_count items) 1 || ltb 50 (item_count items)) "#/items"
      "must contain between 1 and 50 lines"
  read_each_line 0 items
read_order_lines _ = (none, issue "#/items" "must be an array")

abbrev pub location_of :
    Option String → Option String → Option String → Option String → Option DeliveryLocation
location_of (some line) (some city) (some postal) (some country) =
    some (record { address_line = line; city = city; postal_code = postal; country_code = country })
location_of _ _ _ _ = none

unfoldable pub read_location_fields : Option Fields → String → Checked (Option DeliveryLocation)
read_location_fields none pointer = (none, issue pointer "must be an object")
read_location_fields (some fields) pointer = do
  add_unknown_field_issues fields location_names pointer
  line ←
      read_string (lookup "addressLine" fields) (str_append pointer "/addressLine") 1 200 any_text
  city ← read_string (lookup "city" fields) (str_append pointer "/city") 1 100 any_text
  postal ← read_string (lookup "postalCode" fields) (str_append pointer "/postalCode") 1 20 any_text
  country ←
      read_string (lookup "countryCode" fields) (str_append pointer "/countryCode") 2 2
        (capitals_pattern 2)
  pure (location_of line city postal country)

abbrev pub read_location : Option Value → String → Checked (Option DeliveryLocation)
read_location value pointer = read_location_fields (as_record value) pointer

abbrev pub locations_are_equal : DeliveryLocation → DeliveryLocation → Bool
locations_are_equal a b =
    str_eq a.address_line b.address_line
    && str_eq a.city b.city
    && str_eq a.postal_code b.postal_code
    && str_eq a.country_code b.country_code

abbrev pub line_total : DraftLine → ℤ
line_total line = line.quantity *ℤ line.unit_price.amount_minor

abbrev currency_issue : String → ℕ → DraftLine → List ValidationIssue
currency_issue expected index line =
    if str_eq line.unit_price.currency expected
    then []
    else issue (str_append "#/items/" (str_append (decimal index) "/unitPrice/currency"))
        "must match the currency used by every other line"

-- The loop over the lines; it returns at the first total that is no safe integer.
unfoldable pub total_issues : String → ℕ → ℤ → List DraftLine → List ValidationIssue
total_issues expected index total [] = []
total_issues expected index total (line ∷ lines) =
    let rest = total_issues expected (suc index) (total +ℤ line_total line) lines in
    joined (currency_issue expected index line) (
      if is_within max_safe_integer (line_total line)
        && is_within max_safe_integer (total +ℤ line_total line)
      then rest
      else issue "#/items" "calculated total exceeds the safe integer range")

unfoldable pub validate_currencies_and_total : List DraftLine → List ValidationIssue
validate_currencies_and_total [] = []
validate_currencies_and_total (line ∷ lines) =
    total_issues line.unit_price.currency 0 (pos 0) (line ∷ lines)

abbrev pub check_lines : Option (List DraftLine) → Checked (Unit {0})
check_lines none = pure tt
check_lines (some lines) = (tt, validate_currencies_and_total lines)

abbrev pub check_locations : Option DeliveryLocation → Option DeliveryLocation → Checked (Unit {0})
check_locations (some pickup) (some dropoff) =
    note_if (locations_are_equal pickup dropoff) "#/dropoff" "must be different from pickup"
check_locations _ _ = pure tt

-- The lines of a request without issues, whose numbers are in range.
abbrev pub final_line : DraftLine → OrderLine
final_line line = record {
  item_reference = line.item_reference;
  description = line.description;
  quantity = to_natural line.quantity;
  unit_price = record {
    amount_minor = to_natural line.unit_price.amount_minor;
    currency = line.unit_price.currency;
  };
}

abbrev pub final_lines : List DraftLine → List OrderLine
final_lines [] = []
final_lines (line ∷ lines) = final_line line ∷ final_lines lines

abbrev pub request_of :
    Option String
    → Option (List DraftLine)
    → Option DeliveryLocation
    → Option DeliveryLocation
    → Option CreateOrderRequest
request_of (some id) (some lines) (some pickup) (some dropoff) = some (record {
  merchant_order_id = id;
  items = final_lines lines;
  pickup = pickup;
  dropoff = dropoff;
})
request_of _ _ _ _ = none

unfoldable pub read_request : Fields → Checked (Option CreateOrderRequest)
read_request value = do
  add_unknown_field_issues value request_names "#"
  id ← read_string (lookup "merchantOrderId" value) "#/merchantOrderId" 1 100 any_text
  lines ← read_order_lines (lookup "items" value)
  pickup ← read_location (lookup "pickup" value) "#/pickup"
  dropoff ← read_location (lookup "dropoff" value) "#/dropoff"
  check_lines lines
  check_locations pickup dropoff
  pure (request_of id lines pickup dropoff)

unfoldable pub validate_fields : Option Fields → ValidationResult CreateOrderRequest
validate_fields none = invalid (issue "#" "must be an object")
validate_fields (some fields) = result_of (read_request fields).0 (read_request fields).1

abbrev pub validate_create_order_request : Value → ValidationResult CreateOrderRequest
validate_create_order_request value = validate_fields (as_record (some value))
