-- ===== src/App/Validation/CreateOrder/Bounds.antt =====
-- What holds of every request that passes `validateCreateOrderRequest`.
use serverless_order_integra.Base.{
  ℕ, suc, ◌+◌, ◌*◌, ◌≤◌, pos, ◌+ℤ◌, is_within, String, str_eq, eq_iff, ◌≡◌, subst, true, false,
  ◌&&◌, Option, none, some, List, [], ◌∷◌, arith, Bool-cases, inl, inr,
}
use serverless_order_integra.Domain.Order.{DeliveryLocation}
use serverless_order_integra.Json.{Value, arr, Fields, as_record, max_safe_integer}
use serverless_order_integra.App.CreateOrder.{CreateOrderRequest, total_of, calculate_order_total}
use serverless_order_integra.App.Validation.Reads.{valid_result, HasLength, text_is_fine}
use serverless_order_integra.App.Validation.{valid, no_issues_joined, no_issue_noted}
use serverless_order_integra.App.Validation.CreateOrder.{
  DraftLine, item_count, read_order_lines, locations_are_equal, line_total, total_issues,
  validate_currencies_and_total, final_lines, read_request, validate_create_order_request,
  validate_fields, check_locations, check_lines, request_of,
}
use serverless_order_integra.App.Validation.CreateOrder.Acceptable.{
  IsAcceptableLocation, AllAcceptable, no_line, and_line, line_count, IsAcceptable,
}
use serverless_order_integra.App.Validation.CreateOrder.Reads.{
  location_is_fine, IsInRange, AllInRange, no_draft, and_draft, each_line_is_fine,
}

line_total_is : (l : DraftLine) (r : IsInRange l) → line_total l ≡ pos (r.quantity * r.amount)
line_total_is l r = rw (r.quantity_is.0, r.amount_is.0)

sum_is_within :
    (n t : ℕ)
    → (is_within max_safe_integer (pos n) && is_within max_safe_integer (pos t +ℤ pos n)) ≡ true
    → t + n ≤ max_safe_integer
sum_is_within n t h = ground arith

loop_went_on :
    (currency : String) (index t : ℕ) (l : DraftLine) (ls : List DraftLine)
    → total_issues currency index (pos t) (l ∷ ls) ≡ []
    → (r : IsInRange l)
    → (l.unit_price.currency ≡ currency)
      × (total_issues currency (suc index) (pos (t + r.quantity * r.amount)) ls ≡ [])
      × (t + r.quantity * r.amount ≤ max_safe_integer)
unfolding total_issues
loop_went_on currency index t l ls h r =
    let (a, b) = no_issues_joined _ _ h in
    let (same, _) = no_issue_noted (str_eq l.unit_price.currency currency) [] _ _ a in
    let (within, rest) =
      no_issue_noted
        (is_within max_safe_integer (line_total l)
          && is_within max_safe_integer (pos t +ℤ line_total l))
        (total_issues currency (suc index) (pos t +ℤ line_total l) ls) _ _ b in
    let e = line_total_is l r in
    (
      (eq_iff _ _).0 same,
      rw (e) at rest,
      sum_is_within (r.quantity * r.amount) t (rw (e) at within),
    )

-- The loop that adds the lines has met no other currency and no total out of range.
total_is_fine :
    (currency : String) (index t : ℕ) (ls : List DraftLine)
    → total_issues currency index (pos t) ls ≡ []
    → AllInRange ls
    → t ≤ max_safe_integer
    → AllAcceptable currency (final_lines ls) × (total_of t (final_lines ls) ≤ max_safe_integer)
unfolding total_issues
total_is_fine currency index t [] h no_draft k = (no_line, k)
total_is_fine currency index t (l ∷ ls) h (and_draft r rs) k =
    let (a, b, c) = loop_went_on currency index t l ls h r in
    let (d, e) = total_is_fine currency (suc index) (t + r.quantity * r.amount) ls b rs c in
    let (q, low, high) = r.quantity_is in
    let (n, bound) = r.amount_is in
    (
      and_line
          (record {
            item_reference = r.item_reference;
            description = r.description;
            quantity = rw (q) (low, high);
            amount = rw (n) bound;
            currency_form = r.currency_form;
            same_currency = a;
          })
          d,
      rw (q, n) e,
    )

lines_are_fine :
    (v : Option Value)
    → (read_order_lines v).1 ≡ []
    → (ls : List DraftLine) × ((read_order_lines v).0 ≡ some ls)
      × (1 ≤ line_count (final_lines ls))
      × (line_count (final_lines ls) ≤ 50)
      × AllInRange ls
unfolding read_order_lines
lines_are_fine (some (arr items)) h =
    let (a, b) = no_issues_joined _ _ h in
    let (ls, e, n, r) = each_line_is_fine 0 items b in
    let bounds : (1 ≤ item_count items) × (item_count items ≤ 50) = ground (arith, a) in
    (ls, e, rw (n) bounds.0, rw (n) bounds.1, r)
lines_are_fine _ h = cc

total_is_acceptable :
    (l : DraftLine) (ls : List DraftLine)
    → validate_currencies_and_total (l ∷ ls) ≡ []
    → AllInRange (l ∷ ls)
    → AllAcceptable l.unit_price.currency (final_lines (l ∷ ls))
      × (total_of 0 (final_lines (l ∷ ls)) ≤ max_safe_integer)
unfolding validate_currencies_and_total
total_is_acceptable l ls h r = total_is_fine l.unit_price.currency 0 0 (l ∷ ls) h r (omega arith)

apart_is_fine :
    (a b : Option DeliveryLocation) {p q : DeliveryLocation}
    → a ≡ some p
    → b ≡ some q
    → (check_locations a b).1 ≡ []
    → locations_are_equal p q ≡ false
apart_is_fine a b {p} {q} e f h = elim (Bool-cases (locations_are_equal p q)) [
  | inl y ↦ let g = rw (e, f, y) at h in cc
  | inr n ↦ n
]

totals_are_fine :
    (o : Option (List DraftLine)) (ls : List DraftLine)
    → o ≡ some ls
    → (check_lines o).1 ≡ []
    → validate_currencies_and_total ls ≡ []
totals_are_fine o ls e h = rw (e) at h

request_is_read :
    {a : Option String} {b : Option (List DraftLine)} {c d : Option DeliveryLocation} {id : String}
    {lines : List DraftLine} {pickup dropoff : DeliveryLocation}
    → a ≡ some id
    → b ≡ some lines
    → c ≡ some pickup
    → d ≡ some dropoff
    → request_of a b c d
      ≡ some (record {
        merchant_order_id = id;
        items = final_lines lines;
        pickup = pickup;
        dropoff = dropoff;
      })
request_is_read e f g h = rw (e, f, g, h)

acceptable :
    (id : String) (lines : List DraftLine) (pickup dropoff : DeliveryLocation)
    → HasLength 1 100 id
    → 1 ≤ line_count (final_lines lines)
    → line_count (final_lines lines) ≤ 50
    → AllInRange lines
    → validate_currencies_and_total lines ≡ []
    → IsAcceptableLocation pickup
    → IsAcceptableLocation dropoff
    → locations_are_equal pickup dropoff ≡ false
    → IsAcceptable (record {
      merchant_order_id = id;
      items = final_lines lines;
      pickup = pickup;
      dropoff = dropoff;
    })
unfolding calculate_order_total
acceptable id [] pickup dropoff i low high r t p d x = absurd (omega arith)
acceptable id (l ∷ ls) pickup dropoff i low high r t p d x =
    let (lines, total) = total_is_acceptable l ls t r in
    record {
      merchant_order_id = i;
      count = (low, high);
      lines = lines;
      total = total;
      pickup = p;
      dropoff = d;
      apart = x;
    }

request_is_fine :
    (fields : Fields)
    → (read_request fields).1 ≡ []
    → (r : CreateOrderRequest) × ((read_request fields).0 ≡ some r) × IsAcceptable r
unfolding read_request
request_is_fine fields h =
    let (_, g) = no_issues_joined _ _ h in
    let (a, g) = no_issues_joined _ _ g in
    let (b, g) = no_issues_joined _ _ g in
    let (c, g) = no_issues_joined _ _ g in
    let (d, g) = no_issues_joined _ _ g in
    let (e, g) = no_issues_joined _ _ g in
    let (f, _) = no_issues_joined _ _ g in
    let (id, ea, ia, _) = text_is_fine _ _ _ _ _ a in
    let (lines, eb, low, high, r) = lines_are_fine _ b in
    let (pickup, ec, p) = location_is_fine _ _ c in
    let (dropoff, ed, q) = location_is_fine _ _ d in
    (
      record {
        merchant_order_id = id;
        items = final_lines lines;
        pickup = pickup;
        dropoff = dropoff;
      },
      request_is_read ea eb ec ed,
      acceptable id lines pickup dropoff ia low high r (totals_are_fine _ lines eb e) p q
          (apart_is_fine _ _ ec ed f),
    )

fields_are_fine :
    (fields : Option Fields) (r : CreateOrderRequest)
    → validate_fields fields ≡ valid r
    → IsAcceptable r
unfolding validate_fields
fields_are_fine none r h = cc
fields_are_fine (some fields) r h =
    let (i, e) = valid_result _ _ r h in
    let (q, f, a) = request_is_fine fields i in subst IsAcceptable (cc) a

-- Every request that passes the validation of a created order is acceptable: it has 1 to 50 lines,
-- each with a quantity of 1 to 100, an amount that is a safe integer and the one currency of the
-- request; its total, computed without overflow, is a safe integer; its texts have the documented
-- lengths and forms; and its two places differ.
pub validated_request-IsAcceptable :
    (value : Value) (r : CreateOrderRequest)
    → validate_create_order_request value ≡ valid r
    → IsAcceptable r
validated_request-IsAcceptable value r h = fields_are_fine (as_record (some value)) r h
