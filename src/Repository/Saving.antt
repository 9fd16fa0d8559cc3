-- ===== src/Repository/Saving.antt =====
-- In-memory repository: `saveStatusChange` and `recordProviderWebhook`.
use serverless_order_integra.Base.{
  ℕ, String, str_eq, ◌==◌, Bool, true, false, not, ◌&&◌, Option, none, some, Key, key_equality, get,
  set, is_some, require, if◌then◌else◌,
}
use serverless_order_integra.Base.Exec.{pure, raise, lift, gets, modify, check, ◌>>=◌, ◌>>◌}
use serverless_order_integra.Domain.Status.{pending_submission, submitted, status_eq}
use serverless_order_integra.Domain.Order.{Order, provider_code_text}
use serverless_order_integra.Domain.Errors.{
  order_not_found, order_version_conflict, delivery_provider_order_id_conflict,
  provider_event_id_conflict, type_error,
}
use serverless_order_integra.Repository.Contract.{
  OrderStatusChangedMutation, assert_next_order_version, RecordProviderWebhookInput, RecordResult,
  recorded, duplicate,
}
use serverless_order_integra.Repository.State.{
  OrderRef, ProcessedProviderEvent, Repository, tuple_key, key_of, ref_of,
}
use serverless_order_integra.Repository.Orders.{Repo, put_order, put_provider_order}

-- The provider's id that a save claims: only one that confirms submission claims any.
abbrev pub claimed_provider_id : OrderStatusChangedMutation → Order → Option String
claimed_provider_id mutation order =
    if status_eq mutation.previous_status pending_submission && status_eq order.status submitted
    then order.provider.delivery_provider_order_id
    else none

abbrev pub provider_key : Order → String → Key
provider_key order id = tuple_key (provider_code_text order.provider.delivery_provider_code) id

-- Whether the claim is free, or this order's already.
abbrev may_claim : Option OrderRef → Order → Bool
may_claim none order = true
may_claim (some ref) order =
    str_eq ref.merchant_id order.merchant_id && str_eq ref.order_id order.order_id

abbrev provider_claim : Option String → Order → Repository → Option OrderRef
provider_claim none order r = none
provider_claim (some id) order r = get (provider_key order id) r.provider_orders

abbrev pub store_claim : Option String → Order → Repository → Repository
store_claim none order r = r
store_claim (some id) order r = put_provider_order (provider_key order id) (ref_of order) r

-- The stored order with the fields that a save may change.
abbrev pub updated_order : Order → Order → Order
updated_order existing order = record existing {
  status = order.status;
  provider = order.provider;
  payment = order.payment;
  updated_at = order.updated_at;
  version = order.version;
  failure = order.failure;
}

unfoldable pub save_status_change : Order → ℕ → OrderStatusChangedMutation → Repo (Unit {0})
save_status_change order expected_version mutation = do
  lift (assert_next_order_version order expected_version)
  found ← gets (λ r. get (key_of order) r.orders)
  existing ← lift (require found order_not_found)
  check (existing.version == expected_version) (order_version_conflict existing.version)
  let claimed = claimed_provider_id mutation order
  claim ← gets (provider_claim claimed order)
  check (may_claim claim order) delivery_provider_order_id_conflict
  modify (put_order (key_of order) (updated_order existing order))
  modify (store_claim claimed order)

abbrev pub provider_event_key : String → Key
provider_event_key event_id = tuple_key "provider-webhook" event_id

abbrev pub put_provider_event : Key → ProcessedProviderEvent → Repository → Repository
put_provider_event key event r = record r {
  processed_provider_events = set key event r.processed_provider_events;
}

-- The write of a changed order, if there is one.
unfoldable pub write_changed : Option Order → Order → Repo (Unit {0})
write_changed none current = pure tt
write_changed (some changed) current = do
  lift (assert_next_order_version changed current.version)
  modify (put_order (key_of current) changed)

-- `(a === undefined) === (b === undefined)`
abbrev same_presence : Bool → Bool → Bool
same_presence true b = b
same_presence false b = not b

abbrev record_new_webhook : RecordProviderWebhookInput → Repo RecordResult
record_new_webhook input = do
  found ← gets (λ r. get (key_of input.current_order) r.orders)
  stored ← lift (require found order_not_found)
  check (stored.version == input.current_order.version) (order_version_conflict stored.version)
  check (same_presence (is_some input.changed_order) (is_some input.mutation))
      (type_error "A changed webhook order and its mutation must be supplied together.")
  write_changed input.changed_order input.current_order
  modify (
      put_provider_event (provider_event_key input.event_id)
        (record { fingerprint = input.event_fingerprint }))
  pure recorded

abbrev record_webhook_with :
    Option ProcessedProviderEvent → RecordProviderWebhookInput → Repo RecordResult
record_webhook_with (some event) input =
    if str_eq event.fingerprint input.event_fingerprint
    then pure duplicate
    else raise provider_event_id_conflict
record_webhook_with none input = record_new_webhook input

unfoldable pub record_provider_webhook : RecordProviderWebhookInput → Repo RecordResult
record_provider_webhook input = do
  event ← gets (λ r. get (provider_event_key input.event_id) r.processed_provider_events)
  record_webhook_with event input
