-- ===== src/Repository/Listing/Pages.antt =====
-- What a page holds, and in which order.
use mathlib.Core.List.{Perm, ◌++◌}
use serverless_order_integra.Base.{
  ◌≤◌, ◌⊎◌, ℕ, ◌≡◌, sym, subst, Bool-cases, List, [], ◌∷◌, none, some, ok, arith, NotAfter,
  NotAfter-of_lt, Map, Key, inl, inr,
}
use serverless_order_integra.Domain.Order.{Order}
use serverless_order_integra.Repository.Contract.{assert_order_page_limit}
use serverless_order_integra.Repository.State.{Repository}
use serverless_order_integra.Repository.Listing.{
  ListOrdersInput, ListOrdersResult, position_of, order_list_sort_key, key_lt, candidates, insert,
  sort, count, slice, list, page_of,
}
use serverless_order_integra.Repository.Listing.Chosen.{
  Listed, Chosen, candidates-Chosen, sort-perm, beyond, slice-beyond, count-slice_le, slice-cases,
  last_order-found,
}

-- The head of the list, if there is one, has no larger key than `x`.
abbrev pub Below : Order → List Order → Type 0
Below x [] = Unit
Below x (y ∷ ys) =
    NotAfter (order_list_sort_key (position_of y)) (order_list_sort_key (position_of x))

-- A page leaves none out and gives no next position, or is full and gives that of its last order.
abbrev pub Ends : ℕ → ListOrdersResult → List Order → Type 0
Ends limit page rest =
    ((rest ≡ []) × (page.next_position ≡ none))
    ⊎ ((y : Order) × (ys : List Order) × (rest ≡ y ∷ ys)
        × (count page.orders ≡ limit)
        × (before : List Order) × (o : Order) × (page.orders ≡ before ++ o ∷ [])
        × (page.next_position ≡ some (position_of o)))

-- No order is followed by one with a larger key.
abbrev pub Descending : List Order → Type 0
Descending [] = Unit
Descending (x ∷ xs) = Below x xs × Descending xs

insert-Below :
    (o z : Order) (xs : List Order)
    → NotAfter (order_list_sort_key (position_of o)) (order_list_sort_key (position_of z))
    → Below z xs
    → Below z (insert o xs)
insert-Below o z [] h b = h
insert-Below o z (x ∷ xs) h b = elim (Bool-cases (key_lt o (position_of x))) [
  | inl y ↦ rw y b
  | inr n ↦ rw n h
]

insert-Descending : (o : Order) (xs : List Order) → Descending xs → Descending (insert o xs)
insert-Descending o [] d = (tt, tt)
insert-Descending o (x ∷ xs) (b, d) = elim (Bool-cases (key_lt o (position_of x))) [
  | inl y ↦ rw y (
    insert-Below o x xs
        (NotAfter-of_lt (order_list_sort_key (position_of o)) (order_list_sort_key (position_of x))
          y)
        b,
    insert-Descending o xs d,
  )
  | inr n ↦ rw n (n, (b, d))
]

sort-Descending : (xs : List Order) → Descending (sort xs)
sort-Descending [] = tt
sort-Descending (x ∷ xs) = insert-Descending x (sort xs) (sort-Descending xs)

list-shape :
    (input : ListOrdersInput) (r s : Repository) {page : ListOrdersResult}
    → list input r ≡ (ok page, s)
    → (1 ≤ input.limit) × (page ≡ page_of input.limit (sort (candidates input r.orders))) × (s ≡ r)
unfolding list assert_order_page_limit
list-shape input r s h = ground arith

-- A page of what is chosen: the listing in its order, cut after the page.
pub record IsPage (input : ListOrdersInput) (m : Map Key Order) (page : ListOrdersResult)
    : Type 0 where
  pub found : List Order
  pub chosen : Chosen (Listed input) m found
  pub rest : List Order
  pub all_shown : Perm (page.orders ++ rest) found
  pub ordered : Descending (page.orders ++ rest)
  pub bounded : count page.orders ≤ input.limit
  pub ends : Ends input.limit page rest

page_of-Ends :
    (limit : ℕ) (xs : List Order) → 1 ≤ limit → Ends limit (page_of limit xs) (beyond limit xs)
page_of-Ends limit xs h = elim (slice-cases limit xs) [
  | inl (e, n) ↦ inl (e, rw n)
  | inr (y, ys, e, t, c) ↦
      let (before, o, p, l) = last_order-found (slice limit xs) (omega (arith, c)) in
      inr (y, ys, e, c, before, o, p, rw (t, l))
]

-- The orders that a listing has to show are the stored ones of the merchant that asks, in the wanted
-- status, whose key comes after that of the given position. A page shows the first of them in
-- descending order of their keys, each once: no more than the limit, and fewer than all only when
-- the page is full, with the position of its last order as the next position; a page that leaves
-- none out gives no next position. Listing changes nothing.
pub list-Listed :
    (input : ListOrdersInput) (r s : Repository) {page : ListOrdersResult}
    → list input r ≡ (ok page, s)
    → IsPage input r.orders page × (s ≡ r)
list-Listed input r s h =
    let (l, e, u) = list-shape input r s h in
    let all = sort (candidates input r.orders) in
    (
      subst (IsPage input r.orders) (sym e) (record {
        found = candidates input r.orders;
        chosen = candidates-Chosen input r.orders;
        rest = beyond input.limit all;
        all_shown = rw (slice-beyond input.limit all) (sort-perm (candidates input r.orders));
        ordered = rw (slice-beyond input.limit all) (sort-Descending (candidates input r.orders));
        bounded = count-slice_le input.limit all;
        ends = page_of-Ends input.limit all l;
      }),
      u,
    )
