-- ===== src/Repository/Calls.antt =====
-- The methods that change the repository, as one type of calls, and what every call guarantees.
use serverless_order_integra.Base.{ℕ, ◌≡◌, Bool, false, key_equality, arith}
use serverless_order_integra.Base.Exec.{is_ok}
use serverless_order_integra.Domain.Order.{Order}
use serverless_order_integra.Repository.Contract.{
  CreateOrderInput, OrderStatusChangedMutation, BindStripePaymentIntentInput,
  RecordProviderWebhookInput, ApplyStripeWebhookChangeInput, RecordIgnoredStripeWebhookInput,
  RecordStripeWebhookReconciliationRequiredInput,
}
use serverless_order_integra.Repository.State.{Repository}
use serverless_order_integra.Repository.Orders.{Repo, create, bind_stripe_payment_intent}
use serverless_order_integra.Repository.Saving.{save_status_change, record_provider_webhook}
use serverless_order_integra.Repository.Stripe.{
  apply_stripe_webhook_change, record_ignored_stripe_webhook,
  record_stripe_webhook_reconciliation_required,
}
use serverless_order_integra.Repository.Effects.{
  create-effect, save-effect, bind-effect, webhook-effect, apply-effect, ignore-effect,
  reconcile-effect,
}

pub data Call : Type 0 where
  creating : CreateOrderInput → Call
  saving : Order → ℕ → OrderStatusChangedMutation → Call
  binding : BindStripePaymentIntentInput → Call
  recording : RecordProviderWebhookInput → Call
  applying : ApplyStripeWebhookChangeInput → Call
  ignoring : RecordIgnoredStripeWebhookInput → Call
  reconciling : RecordStripeWebhookReconciliationRequiredInput → Call

-- Whether the method returned, and the repository after it.
abbrev done : {A : Type 0} → Repo A → Repository → Bool × Repository
done m r = (is_ok (m r).0, (m r).1)

abbrev pub run : Call → Repository → Bool × Repository
run (creating input) r = done (create input) r
run (saving order version mutation) r = done (save_status_change order version mutation) r
run (binding input) r = done (bind_stripe_payment_intent input) r
run (recording input) r = done (record_provider_webhook input) r
run (applying input) r = done (apply_stripe_webhook_change input) r
run (ignoring input) r = done (record_ignored_stripe_webhook input) r
run (reconciling input) r = done (record_stripe_webhook_reconciliation_required input) r

-- A call of the repository that throws has changed nothing.
pub failed_call_changes_nothing :
    (c : Call) (r : Repository) → (run c r).0 ≡ false → (run c r).1 ≡ r
failed_call_changes_nothing (creating i) r h = ground (arith, create-effect i r)
failed_call_changes_nothing (saving o v m) r h = ground (arith, save-effect o v m r)
failed_call_changes_nothing (binding i) r h = ground (arith, bind-effect i r)
failed_call_changes_nothing (recording i) r h = ground (arith, webhook-effect i r)
failed_call_changes_nothing (applying i) r h = ground (arith, apply-effect i r)
failed_call_changes_nothing (ignoring i) r h = ground (arith, ignore-effect i r)
failed_call_changes_nothing (reconciling i) r h = ground (arith, reconcile-effect i r)
