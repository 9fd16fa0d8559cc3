-- ===== src/Tests/Listing.antt =====
-- The results on the listing of orders, at one page.
use serverless_order_integra.Base.{◌≡◌, refl, [], ◌∷◌, none, some, ok, str_lt}
use serverless_order_integra.Domain.Status.{status_eq}
use serverless_order_integra.Domain.Order.{Order}
use serverless_order_integra.Repository.Contract.{assert_order_page_limit}
use serverless_order_integra.Repository.State.{Repository, empty_repository, key_of}
use serverless_order_integra.Repository.Listing.{
  ListOrdersInput, ListOrdersResult, order_list_sort_key, is_candidate, list,
}
use serverless_order_integra.Repository.Listing.Pages.{IsPage, list-Listed}
use serverless_order_integra.Tests.Samples.{ten, new_order}

abbrev other_merchant : Order
other_merchant = record new_order { merchant_id = "merchant-2" }

abbrev later_order : Order
later_order = record new_order { order_id = "order-2"; created_at = ten }

abbrev shop : Repository
shop = record empty_repository {
  orders =
      (key_of new_order, new_order)
      ∷ (key_of other_merchant, other_merchant)
      ∷ (key_of later_order, later_order)
      ∷ [];
}

abbrev first_page : ListOrdersInput
first_page = record { merchant_id = "merchant-1"; status = none; limit = 2; position = none }

abbrev both : ListOrdersResult
both = record { orders = later_order ∷ new_order ∷ []; next_position = none }

listing : list first_page shop ≡ (ok both, shop)
unfolding list assert_order_page_limit is_candidate order_list_sort_key status_eq str_lt
listing = refl

-- With one order to a page, the second page starts after the first.
paging : list (record first_page { limit = 1 }) shop ≡ (
  ok (record {
    orders = later_order ∷ [];
    next_position = some (record { created_at = ten; order_id = "order-2" });
  }),
  shop,
)
unfolding list assert_order_page_limit is_candidate order_list_sort_key status_eq str_lt
paging = refl

second_page :
    list
      (record first_page {
        limit = 1;
        position = some (record { created_at = ten; order_id = "order-2" });
      })
      shop
    ≡ (ok (record { orders = new_order ∷ []; next_position = none }), shop)
unfolding list assert_order_page_limit is_candidate order_list_sort_key status_eq str_lt
second_page = refl

list-Listed_example : IsPage first_page shop.orders both × (shop ≡ shop)
list-Listed_example = list-Listed first_page shop shop listing
