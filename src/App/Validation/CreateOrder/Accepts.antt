-- ===== src/App/Validation/CreateOrder/Accepts.antt =====
-- The requests that `validateCreateOrderRequest` accepts: each acceptable one, written as the
-- canonical JSON object of src/application/create-order.ts, is read back as it is.
use Prim.Native.String.{◌++◌ as str_append}
use serverless_order_integra.Base.{
  ℕ, suc, ◌+◌, ◌*◌, ◌≤◌, pos, is_within, String, eq_iff, ◌≡◌, refl, ap, Bool, true, false, some,
  List, [], ◌∷◌, arith, ltb, ◌||◌, ◌&&◌, ◌↔◌,
}
use serverless_order_integra.Domain.Order.{Money, OrderLine, DeliveryLocation}
use serverless_order_integra.Json.{arr, num, int, as_record, max_safe_integer}
use serverless_order_integra.Json.Text.{decimal}
use serverless_order_integra.App.CreateOrder.{
  CreateOrderRequest, total_of, currency_of, calculate_order_total,
}
use serverless_order_integra.App.CreateOrder.Fingerprint.{canonical_request}
use serverless_order_integra.App.Validation.Reads.{HasLength}
use serverless_order_integra.App.Validation.{
  joined, valid, text_issues, integer_issues, unknown_fields, any_text, as_safe_integer, result_of,
}
use serverless_order_integra.App.Validation.CreateOrder.{
  capitals_pattern, DraftLine, read_money_fields, read_line_fields, read_each_line, item_count,
  read_order_lines, read_location_fields, total_issues, validate_currencies_and_total, final_lines,
  read_request, validate_create_order_request, validate_fields,
}
use serverless_order_integra.App.Validation.CreateOrder.Acceptable.{
  IsAcceptableLocation, IsAcceptableLine, AllAcceptable, no_line, and_line, line_count,
  IsAcceptable,
}
use serverless_order_integra.App.Validation.CreateOrder.Bounds.{validated_request-IsAcceptable}
use serverless_order_integra.Events.Stored.{money_value, line_value, items_of, location_value}

no_text_issues :
    (s p : String) (minimum maximum : ℕ) (pattern : String → Bool)
    → HasLength minimum maximum s
    → pattern s ≡ true
    → text_issues (some s) p minimum maximum pattern ≡ []
unfolding text_issues
no_text_issues s p minimum maximum pattern h k = ground (arith, k)

capitals-length : (n : ℕ) (s : String) → capitals_pattern n s ≡ true → HasLength n n s
unfolding capitals_pattern
capitals-length n s h = ground (arith, h)

location_value_is_read :
    (l : DeliveryLocation) (p : String)
    → IsAcceptableLocation l
    → read_location_fields (as_record (some (location_value l))) p ≡ (some l, [])
unfolding read_location_fields unknown_fields joined
location_value_is_read l p a = rw (
  no_text_issues l.address_line (str_append p "/addressLine") 1 200 any_text a.address_line refl,
  no_text_issues l.city (str_append p "/city") 1 100 any_text a.city refl,
  no_text_issues l.postal_code (str_append p "/postalCode") 1 20 any_text a.postal_code refl,
  no_text_issues l.country_code (str_append p "/countryCode") 2 2 (capitals_pattern 2)
      (capitals-length 2 l.country_code a.country_code) a.country_code,
)

-- The draft of a line whose numbers are natural.
abbrev draft : OrderLine → DraftLine
draft l = record {
  item_reference = l.item_reference;
  description = l.description;
  quantity = pos l.quantity;
  unit_price = record {
    amount_minor = pos l.unit_price.amount_minor;
    currency = l.unit_price.currency;
  };
}

abbrev drafts : List OrderLine → List DraftLine
drafts [] = []
drafts (l ∷ ls) = draft l ∷ drafts ls

safe_integer_is_read :
    (n : ℕ) → n ≤ max_safe_integer → as_safe_integer (some (num (int (pos n)))) ≡ some (pos n)
safe_integer_is_read n h = ground arith

no_integer_issues :
    (n : ℕ) (p : String) (minimum maximum : ℕ)
    → minimum ≤ n
    → n ≤ maximum
    → integer_issues (some (pos n)) p minimum maximum ≡ []
unfolding integer_issues
no_integer_issues n p minimum maximum h k = ground arith

price_value_is_read :
    (m : Money) (p : String)
    → m.amount_minor ≤ max_safe_integer
    → capitals_pattern 3 m.currency ≡ true
    → read_money_fields (as_record (some (money_value m))) p
      ≡ (some (record { amount_minor = pos m.amount_minor; currency = m.currency }), [])
unfolding read_money_fields unknown_fields joined
price_value_is_read m p a c = rw (
  safe_integer_is_read m.amount_minor a,
  no_integer_issues m.amount_minor (str_append p "/amountMinor") 0 max_safe_integer (omega arith) a,
  no_text_issues m.currency (str_append p "/currency") 3 3 (capitals_pattern 3)
      (capitals-length 3 m.currency c) c,
)

line_value_is_read :
    (currency : String) (l : OrderLine) (p : String)
    → IsAcceptableLine currency l
    → read_line_fields (as_record (some (line_value l))) p ≡ (some (draft l), [])
unfolding read_line_fields unknown_fields joined
line_value_is_read currency l p a =
    let (low, high) = a.quantity in
    let safe : l.quantity ≤ max_safe_integer = omega arith in
    rw (
      no_text_issues l.item_reference (str_append p "/itemReference") 1 100 any_text
          a.item_reference refl,
      no_text_issues l.description (str_append p "/description") 1 200 any_text a.description refl,
      safe_integer_is_read l.quantity safe,
      no_integer_issues l.quantity (str_append p "/quantity") 1 100 low high,
      price_value_is_read l.unit_price (str_append p "/unitPrice") a.amount a.currency_form,
    )

lines_value_is_read :
    (currency : String) (index : ℕ) (ls : List OrderLine)
    → AllAcceptable currency ls
    → read_each_line index (items_of ls) ≡ (some (drafts ls), [])
unfolding read_each_line joined
lines_value_is_read currency index [] no_line = refl
lines_value_is_read currency index (l ∷ ls) (and_line a rest) = rw (
  line_value_is_read currency l (str_append "#/items/" (decimal index)) a,
  lines_value_is_read currency (suc index) ls rest,
)

final_drafts : (ls : List OrderLine) → final_lines (drafts ls) ≡ ls
final_drafts [] = refl
final_drafts (l ∷ ls) = ap (◌∷◌ l) (final_drafts ls)

item_count-lines : (ls : List OrderLine) → item_count (items_of ls) ≡ line_count ls
item_count-lines [] = refl
item_count-lines (l ∷ ls) = ap suc (item_count-lines ls)

total_grows : (t : ℕ) (ls : List OrderLine) → t ≤ total_of t ls
total_grows t [] = omega arith
total_grows t (l ∷ ls) = omega (arith, total_grows (t + l.quantity * l.unit_price.amount_minor) ls)

sum_fits :
    (n t : ℕ)
    → t + n ≤ max_safe_integer
    → (is_within max_safe_integer (pos n) && is_within max_safe_integer (pos (t + n))) ≡ true
sum_fits n t h = ground arith

no_total_issues :
    (currency : String) (index t : ℕ) (ls : List OrderLine)
    → AllAcceptable currency ls
    → total_of t ls ≤ max_safe_integer
    → total_issues currency index (pos t) (drafts ls) ≡ []
unfolding total_issues joined
no_total_issues currency index t [] a h = refl
no_total_issues currency index t (l ∷ ls) (and_line a rest) h =
    let n = l.quantity * l.unit_price.amount_minor in
    rw (
      (eq_iff l.unit_price.currency currency).1 a.same_currency,
      sum_fits n t (omega (arith, total_grows (t + n) ls, h)),
      no_total_issues currency (suc index) (t + n) ls rest h,
    )

few_lines : (n : ℕ) → 1 ≤ n → n ≤ 50 → (ltb n 1 || ltb 50 n) ≡ false
few_lines n low high = ground arith

order_lines_are_read :
    (currency : String) (ls : List OrderLine)
    → 1 ≤ line_count ls
    → line_count ls ≤ 50
    → AllAcceptable currency ls
    → read_order_lines (some (arr (items_of ls))) ≡ (some (drafts ls), [])
unfolding read_order_lines joined
order_lines_are_read currency ls low high a =
    rw
      (item_count-lines ls, few_lines (line_count ls) low high, lines_value_is_read currency 0 ls a)

no_issues_of_lines :
    (ls : List OrderLine)
    → AllAcceptable (currency_of ls) ls
    → total_of 0 ls ≤ max_safe_integer
    → validate_currencies_and_total (drafts ls) ≡ []
unfolding validate_currencies_and_total
no_issues_of_lines [] a h = refl
no_issues_of_lines (l ∷ ls) a h = no_total_issues l.unit_price.currency 0 0 (l ∷ ls) a h

acceptable_request_is_valid :
    (r : CreateOrderRequest)
    → IsAcceptable r
    → validate_create_order_request (canonical_request r) ≡ valid r
unfolding validate_fields read_request result_of unknown_fields joined canonical_request
    calculate_order_total
acceptable_request_is_valid r a =
    let (low, high) = a.count in
    rw (
      no_text_issues r.merchant_order_id "#/merchantOrderId" 1 100 any_text a.merchant_order_id
          refl,
      order_lines_are_read (calculate_order_total r).currency r.items low high a.lines,
      location_value_is_read r.pickup "#/pickup" a.pickup,
      location_value_is_read r.dropoff "#/dropoff" a.dropoff,
      no_issues_of_lines r.items a.lines a.total,
      a.apart,
      final_drafts r.items,
    )

-- A request, written as its canonical JSON object, passes the validation and is read back as it is
-- exactly when it is acceptable.
pub canonical_request_is_valid_iff :
    (r : CreateOrderRequest)
    → (validate_create_order_request (canonical_request r) ≡ valid r) ↔ IsAcceptable r
canonical_request_is_valid_iff r =
    (validated_request-IsAcceptable (canonical_request r) r, acceptable_request_is_valid r)
