-- ===== src/App/StripeWebhook.antt =====
-- src/application/process-stripe-webhook.ts: the service, over the change that it proposes.
use serverless_order_integra.Base.{
  ℕ, zero, suc, String, Bool, true, false, Option, none, some, Result, ok, err,
}
use serverless_order_integra.Base.Exec.{pure, raise, lift, attempt, ◌>>=◌}
use serverless_order_integra.Domain.Order.{Order}
use serverless_order_integra.Domain.Errors.{AppError, order_version_conflict, plain_error}
use serverless_order_integra.Repository.Contract.{
  StripeWebhookEventRecord, RecordResult, recorded, duplicate, StripeWebhookOrderExpectation,
  current_order, missing_order,
}
use serverless_order_integra.Repository.Orders.{get_order, get_by_stripe_payment_intent_id}
use serverless_order_integra.Repository.Stripe.{
  apply_stripe_webhook_change, record_ignored_stripe_webhook,
  record_stripe_webhook_reconciliation_required,
}
use serverless_order_integra.App.World.{App, call}
use serverless_order_integra.App.ProviderWebhook.{max_concurrent_write_attempts}
use serverless_order_integra.App.PreparePayment.{StripePaymentIntentSnapshot, StripePaymentClient}
use serverless_order_integra.App.StripeProposal.{
  ProcessStripeWebhookCommand, ProposedChange, apply_change, ignore, reconcile, propose_change,
}

pub data ProcessStripeWebhookResult : Type 0 where
  applied ignored : Order → ProcessStripeWebhookResult
  reconciliation_required :
      (reason_code : String) (recorded : Bool) (order : Option Order) → ProcessStripeWebhookResult

-- `resolveOrder`: the order that the intent is mapped to, or the one that the snapshot names; and
-- whether the mapping has to be written.
abbrev resolve_from : StripePaymentIntentSnapshot → Option Order → App (Option Order × Bool)
resolve_from snapshot (some order) = pure (some order, false)
resolve_from snapshot none = do
  found ← call (get_order snapshot.merchant_id snapshot.order_id)
  pure (found, true)

unfoldable pub resolve_order : StripePaymentIntentSnapshot → App (Option Order × Bool)
resolve_order snapshot = do
  mapped ← call (get_by_stripe_payment_intent_id snapshot.stripe_payment_intent_id)
  resolve_from snapshot mapped

-- `resolved.order === undefined ? reconciliation('ORDER_NOT_FOUND') : proposeChange(...)`
abbrev propose_for_resolved :
    ProcessStripeWebhookCommand
    → Option Order
    → StripePaymentIntentSnapshot
    → String
    → Result AppError ProposedChange
propose_for_resolved command none snapshot at = ok (reconcile "ORDER_NOT_FOUND")
propose_for_resolved command (some order) snapshot at = propose_change command order snapshot at

abbrev expectation_for : Option Order → StripePaymentIntentSnapshot → StripeWebhookOrderExpectation
expectation_for none snapshot = missing_order snapshot.merchant_id snapshot.order_id
expectation_for (some order) snapshot = current_order order

abbrev unresolved : AppError
unresolved = plain_error "An applicable Stripe event must resolve to an order."

-- The write of one round.
abbrev record_proposed :
    StripeWebhookEventRecord
    → StripePaymentIntentSnapshot
    → Option Order
    → Bool
    → ProposedChange
    → App RecordResult
record_proposed event snapshot order ensure (reconcile reason) = call (
    record_stripe_webhook_reconciliation_required (record {
      event = event;
      reason_code = reason;
      expectation = expectation_for order snapshot;
    }))
record_proposed event snapshot none ensure (apply_change changed mutation) = raise unresolved
record_proposed event snapshot none ensure ignore = raise unresolved
record_proposed event snapshot (some order) ensure (apply_change changed mutation) = call (
    apply_stripe_webhook_change (record {
      event = event;
      current_order = order;
      changed_order = changed;
      mutation = mutation;
      ensure_payment_intent_mapping = ensure;
    }))
record_proposed event snapshot (some order) ensure ignore = call (
    record_ignored_stripe_webhook
      (record { event = event; current_order = order; ensure_payment_intent_mapping = ensure }))

abbrev was_recorded : RecordResult → Bool
was_recorded recorded = true
was_recorded duplicate = false

-- What the service reports. `ignore` and `apply_change` come with an order.
abbrev report : RecordResult → Option Order → ProposedChange → App ProcessStripeWebhookResult
report r order (reconcile reason) = pure (reconciliation_required reason (was_recorded r) order)
report r none _ = raise unresolved
report recorded (some order) (apply_change changed mutation) = pure (applied changed)
report r (some order) _ = pure (ignored order)

-- The `catch`: a version conflict is tried again while attempts are left.
abbrev after_record :
    Option (App ProcessStripeWebhookResult)
    → Option Order
    → ProposedChange
    → Result AppError RecordResult
    → App ProcessStripeWebhookResult
after_record again order proposed (ok r) = report r order proposed
after_record (some again) order proposed (err (order_version_conflict v)) = again
after_record again order proposed (err e) = raise e

abbrev event_record :
    ProcessStripeWebhookCommand → StripePaymentIntentSnapshot → String → StripeWebhookEventRecord
event_record command snapshot at = record {
  event_id = command.event_id;
  event_type = command.event_type;
  event_fingerprint = command.event_fingerprint;
  stripe_payment_intent_id = snapshot.stripe_payment_intent_id;
  processed_at = at;
}

abbrev stripe_round :
    Option (App ProcessStripeWebhookResult)
    → ProcessStripeWebhookCommand
    → StripePaymentIntentSnapshot
    → String
    → App ProcessStripeWebhookResult
stripe_round again command snapshot at = do
  (order, ensure) ← resolve_order snapshot
  proposed ← lift (propose_for_resolved command order snapshot at)
  attempt (record_proposed (event_record command snapshot at) snapshot order ensure proposed)
      (after_record again order proposed)

-- The loop, with the number of attempts that are left.
unfoldable pub stripe_attempts :
    ℕ
    → ProcessStripeWebhookCommand
    → StripePaymentIntentSnapshot
    → String
    → App ProcessStripeWebhookResult
stripe_attempts zero command snapshot at =
    raise (plain_error "Stripe webhook processing exhausted its concurrency attempts.")
stripe_attempts (suc zero) command snapshot at = stripe_round none command snapshot at
stripe_attempts (suc (suc left)) command snapshot at =
    stripe_round (some (stripe_attempts (suc left) command snapshot at)) command snapshot at

unfoldable pub process_stripe_webhook :
    StripePaymentClient
    → (now : String) → ProcessStripeWebhookCommand
    → App ProcessStripeWebhookResult
unfolding stripe_attempts
process_stripe_webhook stripe now command = do
  snapshot ← lift (stripe.retrieve_intent command.stripe_payment_intent_id)
  stripe_attempts max_concurrent_write_attempts command snapshot now
