-- ===== src/Repository/Idempotency.antt =====
-- Repeated calls: a second create, save, bind or webhook record is recognised.
use serverless_order_integra.Base.{
  ℕ, suc, String, str_eq, ◌≡◌, ap, ◌∙◌, none, some, key_equality, string_equality, get,
  get-set_self, ok, err, arith, if◌then◌else◌,
}
use serverless_order_integra.Domain.Order.{Order}
use serverless_order_integra.Domain.Errors.{
  idempotency_conflict, merchant_order_id_conflict, order_version_conflict,
  provider_event_id_conflict,
}
use serverless_order_integra.Repository.Contract.{
  CreateOrderInput, CreateOrderResult, created, OrderStatusChangedMutation,
  RecordProviderWebhookInput, recorded, duplicate, assert_next_order_version,
}
use serverless_order_integra.Repository.State.{IdempotencyEntry, Repository, tuple_key, key_of}
use serverless_order_integra.Repository.Orders.{put_order, create, get_order}
use serverless_order_integra.Repository.Saving.{
  save_status_change, record_provider_webhook, provider_event_key, store_claim, claimed_provider_id,
  updated_order,
}
use serverless_order_integra.Repository.Effects.{with_created, with_webhook, write_changed-effect}
use serverless_order_integra.Repository.Advances.{orders-store_claim}
use serverless_order_integra.Repository.WellFormed.{IsWellFormed}

-- What a successful create has done.
pub create-created :
    (a : CreateOrderInput) (r s : Repository) {o : Order}
    → create a r ≡ (ok (created o), s)
    → (o ≡ a.order) × (s ≡ with_created a r)
unfolding create
create-created a r s h = ground arith

module _ (a b : CreateOrderInput) (r s : Repository) {o : Order} where
  -- After an order was created, a second create under its idempotency key changes nothing: it
  -- returns the stored order if the request is the same, and else is refused.
  pub create-create_same_key :
      create a r ≡ (ok (created o), s)
      → b.order.merchant_id ≡ a.order.merchant_id
      → b.idempotency_key ≡ a.idempotency_key
      → create b s ≡ (
        if str_eq a.request_fingerprint b.request_fingerprint
            then ok (CreateOrderResult.replayed o)
            else err idempotency_conflict,
        s,
      )
  unfolding create
  create-create_same_key h m k =
      let (e, w) = create-created a r s h in
      let entry : IdempotencyEntry = record {
        request_fingerprint = a.request_fingerprint;
        order_id = a.order.order_id;
      } in
      rw (w, m, k, e)
        (ground (
          arith,
          get-set_self (tuple_key a.order.merchant_id a.idempotency_key) entry
              r.idempotency_entries,
          get-set_self (key_of a.order) a.order r.orders,
        ))

  -- After an order was created, a create under a fresh idempotency key is refused if it has the
  -- same merchant order id for the same merchant.
  pub create-create_same_merchant_order_id :
      create a r ≡ (ok (created o), s)
      → b.order.merchant_id ≡ a.order.merchant_id
      → b.order.merchant_order_id ≡ a.order.merchant_order_id
      → get (tuple_key b.order.merchant_id b.idempotency_key) s.idempotency_entries ≡ none
      → create b s ≡ (err merchant_order_id_conflict, s)
  unfolding create
  create-create_same_merchant_order_id h m n free =
      let (e, w) = create-created a r s h in
      let x =
        get-set_self (tuple_key a.order.merchant_id a.order.merchant_order_id) a.order.order_id
          r.merchant_order_ids in
      let y : get (tuple_key b.order.merchant_id b.order.merchant_order_id) s.merchant_order_ids
          ≡ some a.order.order_id =
        rw (w, m, n) x in
      ground (arith, free, y)

  -- A created order is found under its merchant and its id, and looking it up changes nothing.
  pub get-create :
      create a r ≡ (ok (created o), s) → get_order o.merchant_id o.order_id s ≡ (ok (some o), s)
  unfolding get_order
  get-create h =
      let (e, w) = create-created a r s h in
      rw (w, e)
        (ap (λ x. (ok x, with_created a r)) (get-set_self (key_of a.order) a.order r.orders))

-- In a well-formed repository an order that is found for a merchant and an id has that merchant and
-- that id.
pub get_order_own :
    (r s : Repository) (m id : String) {o : Order}
    → IsWellFormed r
    → get_order m id r ≡ (ok (some o), s)
    → (o.merchant_id ≡ m) × (o.order_id ≡ id)
unfolding get_order
get_order_own r s m id {o} w h = let k = w.keyed (tuple_key m id) o (cc) in ground (arith, k)

save-shape :
    (o : Order) (v : ℕ) (m : OrderStatusChangedMutation) (r s : Repository)
    → save_status_change o v m r ≡ (ok tt, s)
    → (old : Order) × (get (key_of o) r.orders ≡ some old)
      × (o.version ≡ suc v)
      × (s ≡ store_claim (claimed_provider_id m o) o (put_order (key_of o) (updated_order old o) r))
unfolding save_status_change assert_next_order_version
save-shape o v m r s h = ground arith

pub save-saved :
    (o : Order) (v : ℕ) (m : OrderStatusChangedMutation) (r s : Repository)
    → save_status_change o v m r ≡ (ok tt, s)
    → (old : Order) × (o.version ≡ suc v) × (get (key_of o) s.orders ≡ some (updated_order old o))
save-saved o v m r s h =
    let (old, _, next, e) = save-shape o v m r s h in
    (
      old,
      next,
      ap (λ (x : Repository). get (key_of o) x.orders) e
          ∙ ap (get (key_of o)) (orders-store_claim (claimed_provider_id m o) o _)
          ∙ get-set_self (key_of o) (updated_order old o) r.orders,
    )

-- After a save from a version has been written, a second save of the same order from that version
-- is refused with the stored version and writes nothing, whatever it carries.
pub save-save_stale :
    (o p : Order) (v : ℕ) (m n : OrderStatusChangedMutation) (r s : Repository)
    → save_status_change o v m r ≡ (ok tt, s)
    → key_of p ≡ key_of o
    → p.version ≡ suc v
    → save_status_change p v n s ≡ (err (order_version_conflict (suc v)), s)
unfolding save_status_change assert_next_order_version
save-save_stale o p v m n r s h k e =
    let (old, next, found) = save-saved o v m r s h in
    let x : get (key_of p) s.orders ≡ some (updated_order old o) = rw k found in ground (arith, x)

webhook-recorded :
    (a : RecordProviderWebhookInput) (r s : Repository)
    → record_provider_webhook a r ≡ (ok recorded, s)
    → s.processed_provider_events ≡ (with_webhook a r).processed_provider_events
unfolding record_provider_webhook
webhook-recorded a r s h = ground (arith, write_changed-effect a.changed_order a.current_order r)

-- A provider event that was recorded is not recorded again: delivered once more it is a duplicate,
-- and with other values it is refused. Nothing changes, whatever order the second call carries.
pub webhook-webhook_same_event :
    (a b : RecordProviderWebhookInput) (r s : Repository)
    → record_provider_webhook a r ≡ (ok recorded, s)
    → b.event_id ≡ a.event_id
    → record_provider_webhook b s ≡ (
      if str_eq a.event_fingerprint b.event_fingerprint
          then ok duplicate
          else err provider_event_id_conflict,
      s,
    )
unfolding record_provider_webhook
webhook-webhook_same_event a b r s h e =
    let x : get (provider_event_key b.event_id) s.processed_provider_events
        ≡ some (record { fingerprint = a.event_fingerprint }) =
      rw (webhook-recorded a r s h, e) (get-set_self _ _ _) in
    ground (arith, x)
