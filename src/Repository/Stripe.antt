-- ===== src/Repository/Stripe.antt =====
-- In-memory repository: recording what became of a Stripe webhook event.
use serverless_order_integra.Base.{
  String, str_eq, ◌==◌, Bool, true, false, ◌&&◌, Option, none, some, Key, key_equality,
  string_equality, get, set, require, if◌then◌else◌,
}
use serverless_order_integra.Base.Exec.{pure, raise, lift, gets, modify, check, ◌>>=◌, ◌>>◌}
use serverless_order_integra.Domain.Order.{Order}
use serverless_order_integra.Domain.Errors.{
  order_not_found, order_version_conflict, stripe_event_id_conflict,
  stripe_payment_intent_binding_conflict,
}
use serverless_order_integra.Repository.Contract.{
  assert_next_order_version, RecordResult, recorded, duplicate, StripeWebhookOutcome, applied,
  ignored, reconciliation_required, StripeWebhookEventRecord, ApplyStripeWebhookChangeInput,
  RecordIgnoredStripeWebhookInput, StripeWebhookOrderExpectation, current_order, missing_order,
  RecordStripeWebhookReconciliationRequiredInput,
}
use serverless_order_integra.Repository.State.{
  OrderRef, ProcessedStripeEvent, Repository, tuple_key, key_of, ref_of,
}
use serverless_order_integra.Repository.Orders.{Repo, put_order, put_stripe_payment_intent}

abbrev pub stripe_event_key : String → Key
stripe_event_key event_id = tuple_key "stripe-webhook" event_id

abbrev duplicate_of :
    Option ProcessedStripeEvent → StripeWebhookEventRecord → Repo (Option RecordResult)
duplicate_of none event = pure none
duplicate_of (some existing) event =
    if str_eq existing.fingerprint event.event_fingerprint
    then pure (some duplicate)
    else raise stripe_event_id_conflict

unfoldable pub stripe_event_duplicate : StripeWebhookEventRecord → Repo (Option RecordResult)
stripe_event_duplicate event = do
  existing ← gets (λ r. get (stripe_event_key event.event_id) r.processed_stripe_events)
  duplicate_of existing event

-- The stored order that a caller has read; its key is `key_of` the order.
unfoldable pub stripe_current_order : Order → Repo (Unit {0})
stripe_current_order order = do
  found ← gets (λ r. get (key_of order) r.orders)
  stored ← lift (require found order_not_found)
  check (stored.version == order.version) (order_version_conflict stored.version)

abbrev check_mapping : Option OrderRef → Order → Repo (Unit {0})
check_mapping none order = pure tt
check_mapping (some ref) order = do
  check (str_eq ref.merchant_id order.merchant_id && str_eq ref.order_id order.order_id)
      stripe_payment_intent_binding_conflict
  raise (order_version_conflict order.version)

unfoldable pub assert_stripe_payment_intent_mapping : String → Order → Bool → Repo (Unit {0})
assert_stripe_payment_intent_mapping id order false = pure tt
assert_stripe_payment_intent_mapping id order true = do
  existing ← gets (λ r. get id r.stripe_payment_intents)
  check_mapping existing order

-- `if (ensureMapping) this.storeStripePaymentIntentMapping(id, order)`
abbrev pub store_stripe_payment_intent_mapping : Bool → String → Order → Repository → Repository
store_stripe_payment_intent_mapping false id order r = r
store_stripe_payment_intent_mapping true id order r = put_stripe_payment_intent id (ref_of order) r

abbrev pub store_stripe_event :
    StripeWebhookEventRecord → StripeWebhookOutcome → Option String → Repository → Repository
store_stripe_event event outcome reason_code r = record r {
  processed_stripe_events =
      set (stripe_event_key event.event_id)
        (record {
          fingerprint = event.event_fingerprint;
          event_type = event.event_type;
          stripe_payment_intent_id = event.stripe_payment_intent_id;
          outcome = outcome;
          reason_code = reason_code;
        })
        r.processed_stripe_events;
}

-- `if (duplicate !== undefined) return duplicate;` and the rest of a method.
abbrev unless_duplicate : Option RecordResult → Repo RecordResult → Repo RecordResult
unless_duplicate (some result) rest = pure result
unless_duplicate none rest = rest

abbrev apply_new_change : ApplyStripeWebhookChangeInput → Repo RecordResult
apply_new_change input = do
  stripe_current_order input.current_order
  assert_stripe_payment_intent_mapping input.event.stripe_payment_intent_id input.current_order
      input.ensure_payment_intent_mapping
  lift (assert_next_order_version input.changed_order input.current_order.version)
  modify (put_order (key_of input.current_order) input.changed_order)
  modify (
      store_stripe_payment_intent_mapping input.ensure_payment_intent_mapping
        input.event.stripe_payment_intent_id input.current_order)
  modify (store_stripe_event input.event applied none)
  pure recorded

unfoldable pub apply_stripe_webhook_change : ApplyStripeWebhookChangeInput → Repo RecordResult
apply_stripe_webhook_change input = do
  result ← stripe_event_duplicate input.event
  unless_duplicate result (apply_new_change input)

abbrev ignore_new_event : RecordIgnoredStripeWebhookInput → Repo RecordResult
ignore_new_event input = do
  stripe_current_order input.current_order
  assert_stripe_payment_intent_mapping input.event.stripe_payment_intent_id input.current_order
      input.ensure_payment_intent_mapping
  modify (
      store_stripe_payment_intent_mapping input.ensure_payment_intent_mapping
        input.event.stripe_payment_intent_id input.current_order)
  modify (store_stripe_event input.event ignored none)
  pure recorded

unfoldable pub record_ignored_stripe_webhook : RecordIgnoredStripeWebhookInput → Repo RecordResult
record_ignored_stripe_webhook input = do
  result ← stripe_event_duplicate input.event
  unless_duplicate result (ignore_new_event input)

abbrev check_absent : Option Order → Repo (Unit {0})
check_absent none = pure tt
check_absent (some stored) = raise (order_version_conflict stored.version)

abbrev check_expectation : StripeWebhookOrderExpectation → Repo (Unit {0})
check_expectation (current_order order) = stripe_current_order order
check_expectation (missing_order merchant_id order_id) = do
  stored ← gets (λ r. get (tuple_key merchant_id order_id) r.orders)
  check_absent stored

abbrev require_reconciliation : RecordStripeWebhookReconciliationRequiredInput → Repo RecordResult
require_reconciliation input = do
  check_expectation input.expectation
  modify (store_stripe_event input.event reconciliation_required (some input.reason_code))
  pure recorded

unfoldable pub record_stripe_webhook_reconciliation_required :
    RecordStripeWebhookReconciliationRequiredInput → Repo RecordResult
record_stripe_webhook_reconciliation_required input = do
  result ← stripe_event_duplicate input.event
  unless_duplicate result (require_reconciliation input)
