-- ===== src/Repository/Listing/Chosen.antt =====
-- The orders that a listing has to choose from, said without its code, and how it finds them.
use Prim.Native.String.{◌++◌ as str_append}
use mathlib.Core.List.{Perm, ◌++◌}
use mathlib.Core.List.Perm
use serverless_order_integra.Base.{
  ap, refl, ltb, ℕ, zero, suc, ◌≡◌, ◌≤◌, ◌⊎◌, ◌↔◌, String, str_lt, true, false, Bool-cases, List,
  [], ◌∷◌, Option, none, some, arith, eq_iff, Map, Key, inl, inr,
}
use serverless_order_integra.Domain.Status.{OrderStatus, status_eq_iff}
use serverless_order_integra.Domain.Order.{Order}
use serverless_order_integra.Repository.Listing.{
  OrderListPosition, ListOrdersInput, position_of, order_list_sort_key, key_lt, status_wanted,
  after_position, is_candidate, candidates, insert, sort, count, slice, last_order,
}

-- The text by which orders are listed, of the time of creation and the id.
abbrev pub listing_key : String → String → String
listing_key created_at id = str_append "ORDER#" (str_append created_at (str_append "#" id))

abbrev pub InStatus : Option OrderStatus → Order → Type 0
InStatus none o = Unit
InStatus (some s) o = o.status ≡ s

abbrev pub StartsAfter : Option OrderListPosition → Order → Type 0
StartsAfter none o = Unit
StartsAfter (some p) o =
    str_lt (listing_key o.created_at o.order_id) (listing_key p.created_at p.order_id) ≡ true

-- An order that the listing has to show, on this page or a later one.
pub record Listed (input : ListOrdersInput) (o : Order) : Type 0 where
  pub own : o.merchant_id ≡ input.merchant_id
  pub wanted : InStatus input.status o
  pub after : StartsAfter input.position o

-- The entries with the property, each once, and no other.
pub data Chosen (P : Order → Type 0) : Map Key Order → List Order → Type 0 where
  stop : Chosen P [] []
  take :
      {k : Key} {o : Order} {m : Map Key Order} {os : List Order}
      → P o
      → Chosen P m os
      → Chosen P ((k, o) ∷ m) (o ∷ os)
  leave :
      {k : Key} {o : Order} {m : Map Key Order} {os : List Order}
      → ¬ P o
      → Chosen P m os
      → Chosen P ((k, o) ∷ m) os

status_wanted_iff : (w : Option OrderStatus) (o : Order) → (status_wanted w o ≡ true) ↔ InStatus w o
status_wanted_iff none o = (λ h. tt, λ h. refl)
status_wanted_iff (some s) o = status_eq_iff o.status s

after_position_iff :
    (p : Option OrderListPosition) (o : Order) → (after_position p o ≡ true) ↔ StartsAfter p o
unfolding order_list_sort_key
after_position_iff none o = (λ h. tt, λ h. refl)
after_position_iff (some p) o = (λ h. h, λ h. h)

is_candidate-Listed :
    (input : ListOrdersInput) (o : Order) → is_candidate input o ≡ true → Listed input o
unfolding is_candidate
is_candidate-Listed input o h = record {
  own = ground (arith, eq_iff o.merchant_id input.merchant_id);
  wanted = (status_wanted_iff input.status o).0 (ground arith);
  after = (after_position_iff input.position o).0 (ground arith);
}

Listed-is_candidate :
    (input : ListOrdersInput) (o : Order) → Listed input o → is_candidate input o ≡ true
unfolding is_candidate
Listed-is_candidate input o l = rw (
  (eq_iff o.merchant_id input.merchant_id).1 l.own,
  (status_wanted_iff input.status o).1 l.wanted,
  (after_position_iff input.position o).1 l.after,
)

pub candidates-Chosen :
    (input : ListOrdersInput) (m : Map Key Order) → Chosen (Listed input) m (candidates input m)
candidates-Chosen input [] = stop
candidates-Chosen input ((k, o) ∷ m) = elim (Bool-cases (is_candidate input o)) [
  | inl y ↦ rw y (take (is_candidate-Listed input o y) (candidates-Chosen input m))
  | inr n ↦
      rw n (leave (λ l. let e = Listed-is_candidate input o l in cc) (candidates-Chosen input m))
]

insert-perm : (o : Order) (xs : List Order) → Perm (insert o xs) (o ∷ xs)
insert-perm o [] = Perm.refl (o ∷ [])
insert-perm o (x ∷ xs) = elim (Bool-cases (key_lt o (position_of x))) [
  | inl y ↦ rw y (Perm.trans (Perm.cons x (insert-perm o xs)) (Perm.swap o x xs))
  | inr n ↦ rw n (Perm.refl (o ∷ x ∷ xs))
]

pub sort-perm : (xs : List Order) → Perm (sort xs) xs
sort-perm [] = Perm.refl []
sort-perm (x ∷ xs) = Perm.trans (insert-perm x (sort xs)) (Perm.cons x (sort-perm xs))

-- What `slice` leaves out.
abbrev pub beyond : ℕ → List Order → List Order
beyond zero xs = xs
beyond (suc n) [] = []
beyond (suc n) (x ∷ xs) = beyond n xs

pub slice-beyond : (n : ℕ) (xs : List Order) → slice n xs ++ beyond n xs ≡ xs
slice-beyond zero xs = refl
slice-beyond (suc n) [] = refl
slice-beyond (suc n) (x ∷ xs) = ap (λ l. x ∷ l) (slice-beyond n xs)

pub count-slice_le : (n : ℕ) (xs : List Order) → count (slice n xs) ≤ n
count-slice_le zero xs = omega arith
count-slice_le (suc n) [] = omega arith
count-slice_le (suc n) (x ∷ xs) = omega (arith, count-slice_le n xs)

-- A page that leaves nothing out, or a full one.
pub slice-cases :
    (n : ℕ) (xs : List Order)
    → ((beyond n xs ≡ []) × (ltb n (count xs) ≡ false))
      ⊎ ((y : Order) × (ys : List Order) × (beyond n xs ≡ y ∷ ys)
          × (ltb n (count xs) ≡ true)
          × (count (slice n xs) ≡ n))
slice-cases zero [] = inl (refl, ground arith)
slice-cases zero (x ∷ xs) = inr (x, xs, refl, ground arith, refl)
slice-cases (suc n) [] = inl (refl, ground arith)
slice-cases (suc n) (x ∷ xs) = elim (slice-cases n xs) [
  | inl (e, h) ↦ inl (e, ground arith)
  | inr (y, ys, e, h, c) ↦ inr (y, ys, e, ground arith, ap suc c)
]

pub last_order-found :
    (xs : List Order)
    → 1 ≤ count xs
    → (before : List Order) × (o : Order) × (xs ≡ before ++ o ∷ []) × (last_order xs ≡ some o)
last_order-found [] h = absurd (omega arith)
last_order-found (x ∷ []) h = ([], x, refl, refl)
last_order-found (x ∷ y ∷ xs) h =
    let (before, o, e, l) = last_order-found (y ∷ xs) (omega arith) in
    (x ∷ before, o, ap (λ l. x ∷ l) e, l)
