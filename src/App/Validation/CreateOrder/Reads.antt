-- ===== src/App/Validation/CreateOrder/Reads.antt =====
-- What each reader of src/application/create-order-validation.ts has read when it notes no issue.
use serverless_order_integra.Base.{
  ℕ, suc, ◌≤◌, ℤ, pos, String, ◌≡◌, refl, ap, true, Option, none, some, List, [], ◌∷◌,
}
use serverless_order_integra.Domain.Order.{DeliveryLocation}
use serverless_order_integra.Json.{Items, end_of_array, item, Fields, max_safe_integer}
use serverless_order_integra.App.Validation.Reads.{HasLength, text_is_fine, integer_is_fine}
use serverless_order_integra.App.Validation.{no_issues_joined}
use serverless_order_integra.App.Validation.CreateOrder.{
  capitals_pattern, DraftMoney, DraftLine, read_money_fields, read_line_fields, read_each_line,
  item_count, read_location_fields, location_of, money_of, line_of, cons_line, final_lines,
}
use serverless_order_integra.App.Validation.CreateOrder.Acceptable.{
  IsAcceptableLocation, line_count,
}

location_is_read :
    {a b c d : Option String} {line city postal country : String}
    → a ≡ some line
    → b ≡ some city
    → c ≡ some postal
    → d ≡ some country
    → location_of a b c d
      ≡ some (record {
        address_line = line;
        city = city;
        postal_code = postal;
        country_code = country;
      })
location_is_read e f g h = rw (e, f, g, h)

money_is_read :
    {a : Option ℤ} {b : Option String} {amount : ℤ} {currency : String}
    → a ≡ some amount
    → b ≡ some currency
    → money_of a b ≡ some (record { amount_minor = amount; currency = currency })
money_is_read e f = rw (e, f)

line_is_read :
    {a b : Option String} {c : Option ℤ} {d : Option DraftMoney} {reference description : String}
    {quantity : ℤ} {price : DraftMoney}
    → a ≡ some reference
    → b ≡ some description
    → c ≡ some quantity
    → d ≡ some price
    → line_of a b c d
      ≡ some (record {
        item_reference = reference;
        description = description;
        quantity = quantity;
        unit_price = price;
      })
line_is_read e f g h = rw (e, f, g, h)

lines_are_read :
    {a : Option DraftLine} {b : Option (List DraftLine)} {l : DraftLine} {ls : List DraftLine}
    → a ≡ some l
    → b ≡ some ls
    → cons_line a b ≡ some (l ∷ ls)
lines_are_read e f = rw (e, f)

pub location_is_fine :
    (v : Option Fields) (p : String)
    → (read_location_fields v p).1 ≡ []
    → (l : DeliveryLocation) × ((read_location_fields v p).0 ≡ some l) × IsAcceptableLocation l
unfolding read_location_fields
location_is_fine none p h = cc
location_is_fine (some fields) p h =
    let (_, g) = no_issues_joined _ _ h in
    let (a, g) = no_issues_joined _ _ g in
    let (b, g) = no_issues_joined _ _ g in
    let (c, g) = no_issues_joined _ _ g in
    let (d, _) = no_issues_joined _ _ g in
    let (line, ea, la, _) = text_is_fine _ _ _ _ _ a in
    let (city, eb, lb, _) = text_is_fine _ _ _ _ _ b in
    let (postal, ec, lc, _) = text_is_fine _ _ _ _ _ c in
    let (country, ed, _, ld) = text_is_fine _ _ _ _ _ d in
    (
      record { address_line = line; city = city; postal_code = postal; country_code = country },
      location_is_read ea eb ec ed,
      record { address_line = la; city = lb; postal_code = lc; country_code = ld },
    )

-- A draft whose numbers are in range, and its amount.
pub record IsInRange (l : DraftLine) : Type 0 where
  pub quantity : ℕ
  pub quantity_is : (l.quantity ≡ pos quantity) × (1 ≤ quantity) × (quantity ≤ 100)
  pub amount : ℕ
  pub amount_is : (l.unit_price.amount_minor ≡ pos amount) × (amount ≤ max_safe_integer)
  pub item_reference : HasLength 1 100 l.item_reference
  pub description : HasLength 1 200 l.description
  pub currency_form : capitals_pattern 3 l.unit_price.currency ≡ true

money_is_fine :
    (v : Option Fields) (p : String)
    → (read_money_fields v p).1 ≡ []
    → (n : ℕ) × (c : String) × ((read_money_fields v p).0
        ≡ some (record { amount_minor = pos n; currency = c }))
      × (n ≤ max_safe_integer)
      × (capitals_pattern 3 c ≡ true)
unfolding read_money_fields
money_is_fine none p h = cc
money_is_fine (some fields) p h =
    let (_, g) = no_issues_joined _ _ h in
    let (a, g) = no_issues_joined _ _ g in
    let (b, _) = no_issues_joined _ _ g in
    let (n, ea, _, la) = integer_is_fine _ _ _ _ a in
    let (c, eb, _, lb) = text_is_fine _ _ _ _ _ b in (n, c, money_is_read ea eb, la, lb)

line_is_fine :
    (v : Option Fields) (p : String)
    → (read_line_fields v p).1 ≡ []
    → (l : DraftLine) × ((read_line_fields v p).0 ≡ some l) × IsInRange l
unfolding read_line_fields
line_is_fine none p h = cc
line_is_fine (some fields) p h =
    let (_, g) = no_issues_joined _ _ h in
    let (a, g) = no_issues_joined _ _ g in
    let (b, g) = no_issues_joined _ _ g in
    let (c, g) = no_issues_joined _ _ g in
    let (d, _) = no_issues_joined _ _ g in
    let (reference, ea, la, _) = text_is_fine _ _ _ _ _ a in
    let (description, eb, lb, _) = text_is_fine _ _ _ _ _ b in
    let (q, ec, lc, lf) = integer_is_fine _ _ _ _ c in
    let (n, currency, ed, ld, le) = money_is_fine _ _ d in
    (
      record {
        item_reference = reference;
        description = description;
        quantity = pos q;
        unit_price = record { amount_minor = pos n; currency = currency };
      },
      line_is_read ea eb ec ed,
      record {
        quantity = q;
        quantity_is = (refl, lc, lf);
        amount = n;
        amount_is = (refl, ld);
        item_reference = la;
        description = lb;
        currency_form = le;
      },
    )

pub data AllInRange : List DraftLine → Type 0 where
  no_draft : AllInRange []
  and_draft :
      {l : DraftLine} {ls : List DraftLine} → IsInRange l → AllInRange ls → AllInRange (l ∷ ls)

pub each_line_is_fine :
    (index : ℕ) (items : Items)
    → (read_each_line index items).1 ≡ []
    → (ls : List DraftLine) × ((read_each_line index items).0 ≡ some ls)
      × (line_count (final_lines ls) ≡ item_count items)
      × AllInRange ls
unfolding read_each_line
each_line_is_fine index end_of_array h = ([], refl, refl, no_draft)
each_line_is_fine index (item x xs) h =
    let (a, g) = no_issues_joined _ _ h in
    let (b, _) = no_issues_joined _ _ g in
    let (l, ea, la) = line_is_fine _ _ a in
    let (ls, eb, n, lb) = each_line_is_fine (suc index) xs b in
    (l ∷ ls, lines_are_read ea eb, ap suc n, and_draft la lb)
