-- ===== src/Repository/Effects.antt =====
-- The effect of each method on the repository: none, or the writes of its successful path.
use serverless_order_integra.Base.{
  ℕ, suc, String, ◌≡◌, ◌⊎◌, Bool, true, false, Option, none, some, key_equality, string_equality,
  get, ok, arith,
}
use serverless_order_integra.Base.Exec.{is_ok}
use serverless_order_integra.Domain.Order.{Order}
use serverless_order_integra.Repository.Contract.{
  CreateOrderInput, created, assert_next_order_version, OrderStatusChangedMutation,
  BindStripePaymentIntentInput, bound, stripe_payment_intent_id_from_binding,
  order_from_payment_binding, resolve_payment_binding_order, RecordProviderWebhookInput, recorded,
  duplicate, StripeWebhookEventRecord, applied, ignored, reconciliation_required,
  ApplyStripeWebhookChangeInput, RecordIgnoredStripeWebhookInput,
  RecordStripeWebhookReconciliationRequiredInput,
}
use serverless_order_integra.Repository.State.{Repository, tuple_key, key_of, ref_of}
use serverless_order_integra.Repository.Orders.{
  Repo, create, bind_stripe_payment_intent, put_order, put_idempotency_entry, put_merchant_order_id,
  put_stripe_payment_intent,
}
use serverless_order_integra.Repository.Saving.{
  save_status_change, claimed_provider_id, store_claim, updated_order, record_provider_webhook,
  write_changed, put_provider_event, provider_event_key,
}
use serverless_order_integra.Repository.Stripe.{
  apply_stripe_webhook_change, record_ignored_stripe_webhook,
  record_stripe_webhook_reconciliation_required, stripe_event_duplicate, stripe_current_order,
  assert_stripe_payment_intent_mapping, store_stripe_payment_intent_mapping, store_stripe_event,
  stripe_event_key,
}

-- The three writes of `create`.
abbrev pub with_created : CreateOrderInput → Repository → Repository
with_created input r =
    let o = input.order in
    put_merchant_order_id (tuple_key o.merchant_id o.merchant_order_id) o.order_id (
      put_idempotency_entry (tuple_key o.merchant_id input.idempotency_key)
        (record { request_fingerprint = input.request_fingerprint; order_id = o.order_id })
        (put_order (key_of o) o r))

pub create-effect :
    (input : CreateOrderInput) (r : Repository)
    → ((create input r).1 ≡ r)
      ⊎ ((get (key_of input.order) r.orders ≡ none)
          × (create input r ≡ (ok (created input.order), with_created input r)))
unfolding create
create-effect input r = ground arith

pub save-effect :
    (order : Order) (v : ℕ) (m : OrderStatusChangedMutation) (r : Repository)
    → ((save_status_change order v m r).1 ≡ r)
      ⊎ ((old : Order) × (get (key_of order) r.orders ≡ some old)
          × (old.version ≡ v)
          × (order.version ≡ suc v)
          × (save_status_change order v m r ≡ (
            ok tt,
            store_claim
                (claimed_provider_id m order)
                order
                (put_order (key_of order) (updated_order old order) r),
          )))
unfolding save_status_change assert_next_order_version
save-effect order v m r = ground arith

-- A stored order that has the version of the one that a caller has read.
abbrev pub Fresh : Repository → Order → Type 0
Fresh r current =
    (old : Order) × (get (key_of current) r.orders ≡ some old) × (old.version ≡ current.version)

pub bind-effect :
    (input : BindStripePaymentIntentInput) (r : Repository)
    → ((bind_stripe_payment_intent input r).1 ≡ r)
      ⊎ ((id : String) × (q : Order) × (Fresh r input.current_order)
          × (stripe_payment_intent_id_from_binding input ≡ ok id)
          × (order_from_payment_binding input ≡ ok q)
          × (bind_stripe_payment_intent input r ≡ (
            ok (bound q),
            put_stripe_payment_intent id (ref_of q) (put_order (key_of input.current_order) q r),
          )))
unfolding bind_stripe_payment_intent resolve_payment_binding_order
bind-effect input r = ground arith

abbrev pub put_changed : Option Order → Order → Repository → Repository
put_changed none current r = r
put_changed (some changed) current r = put_order (key_of current) changed r

-- What `recordProviderWebhook` writes.
abbrev pub with_webhook : RecordProviderWebhookInput → Repository → Repository
with_webhook input r =
    put_provider_event (provider_event_key input.event_id)
      (record { fingerprint = input.event_fingerprint })
      (put_changed input.changed_order input.current_order r)

abbrev pub NextVersion : Option Order → Order → Type 0
NextVersion none current = Unit
NextVersion (some changed) current = changed.version ≡ suc current.version

abbrev WebhookEffect : RecordProviderWebhookInput → Repository → Option Order → Type 0
WebhookEffect input r changed =
    ((record_provider_webhook input r).1 ≡ r)
    ⊎ (Fresh r input.current_order
        × NextVersion changed input.current_order
        × (get (provider_event_key input.event_id) r.processed_provider_events ≡ none)
        × (record_provider_webhook input r ≡ (ok recorded, with_webhook input r)))

-- A throw that leaves the repository as it was.
abbrev pub Threw : {A : Type 0} → Repo A → Repository → Type 0
Threw m r = (is_ok (m r).0 ≡ false) × ((m r).1 ≡ r)

pub write_changed-effect :
    (changed : Option Order) (current : Order) (r : Repository)
    → Threw (write_changed changed current) r
      ⊎ (NextVersion changed current
          × (write_changed changed current r ≡ (ok tt, put_changed changed current r)))
unfolding write_changed assert_next_order_version
write_changed-effect none current r = ground arith
write_changed-effect (some q) current r = ground arith

pub webhook-effect :
    (input : RecordProviderWebhookInput) (r : Repository)
    → WebhookEffect input r input.changed_order
unfolding record_provider_webhook
webhook-effect input r =
    ground (arith, write_changed-effect input.changed_order input.current_order r)

pub current-effect :
    (o : Order) (r : Repository)
    → Threw (stripe_current_order o) r ⊎ (Fresh r o × (stripe_current_order o r ≡ (ok tt, r)))
unfolding stripe_current_order
current-effect o r = ground arith

pub duplicate-effect :
    (event : StripeWebhookEventRecord) (r : Repository)
    → Threw (stripe_event_duplicate event) r
      ⊎ (stripe_event_duplicate event r ≡ (ok (some duplicate), r))
      ⊎ ((get (stripe_event_key event.event_id) r.processed_stripe_events ≡ none)
          × (stripe_event_duplicate event r ≡ (ok none, r)))
unfolding stripe_event_duplicate
duplicate-effect event r = ground arith

pub mapping-effect :
    (id : String) (o : Order) (b : Bool) (r : Repository)
    → Threw (assert_stripe_payment_intent_mapping id o b) r
      ⊎ (assert_stripe_payment_intent_mapping id o b r ≡ (ok tt, r))
unfolding assert_stripe_payment_intent_mapping
mapping-effect id o true r = ground arith
mapping-effect id o false r = ground arith

pub apply-effect :
    (input : ApplyStripeWebhookChangeInput) (r : Repository)
    → ((apply_stripe_webhook_change input r).1 ≡ r)
      ⊎ (Fresh r input.current_order
          × (input.changed_order.version ≡ suc input.current_order.version)
          × (apply_stripe_webhook_change input r ≡ (
            ok recorded,
            store_stripe_event input.event applied none (
                store_stripe_payment_intent_mapping input.ensure_payment_intent_mapping
                  input.event.stripe_payment_intent_id input.current_order
                  (put_order (key_of input.current_order) input.changed_order r)),
          )))
unfolding apply_stripe_webhook_change assert_next_order_version
apply-effect input r = ground (
  arith,
  duplicate-effect input.event r,
  current-effect input.current_order r,
  mapping-effect input.event.stripe_payment_intent_id input.current_order
      input.ensure_payment_intent_mapping r,
)

pub ignore-effect :
    (input : RecordIgnoredStripeWebhookInput) (r : Repository)
    → ((record_ignored_stripe_webhook input r).1 ≡ r)
      ⊎ (Fresh r input.current_order
          × (record_ignored_stripe_webhook input r ≡ (
            ok recorded,
            store_stripe_event input.event ignored none (
                store_stripe_payment_intent_mapping input.ensure_payment_intent_mapping
                  input.event.stripe_payment_intent_id input.current_order r),
          )))
unfolding record_ignored_stripe_webhook
ignore-effect input r = ground (
  arith,
  duplicate-effect input.event r,
  current-effect input.current_order r,
  mapping-effect input.event.stripe_payment_intent_id input.current_order
      input.ensure_payment_intent_mapping r,
)

pub reconcile-effect :
    (input : RecordStripeWebhookReconciliationRequiredInput) (r : Repository)
    → ((record_stripe_webhook_reconciliation_required input r).1 ≡ r)
      ⊎ (record_stripe_webhook_reconciliation_required input r ≡ (
        ok recorded,
        store_stripe_event input.event reconciliation_required (some input.reason_code) r,
      ))
unfolding record_stripe_webhook_reconciliation_required stripe_event_duplicate stripe_current_order
reconcile-effect input r = ground arith
