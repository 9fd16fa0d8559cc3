-- ===== src/Repository/Payments.antt =====
-- Repeated calls on payments: Stripe events and the binding of a payment intent.
use serverless_order_integra.Base.{
  ◌≡◌, ap, ◌∙◌, String, str_eq, Option, none, some, get, key_equality, string_equality,
  get-set_self, ok, err, arith, if◌then◌else◌,
}
use serverless_order_integra.Domain.Errors.{stripe_event_id_conflict}
use serverless_order_integra.Repository.Contract.{
  assert_next_order_version, RecordResult, recorded, duplicate, StripeWebhookEventRecord,
  ApplyStripeWebhookChangeInput, RecordIgnoredStripeWebhookInput,
  RecordStripeWebhookReconciliationRequiredInput, StripeWebhookOutcome, applied, ignored,
  reconciliation_required,
}
use serverless_order_integra.Repository.State.{Repository, key_of}
use serverless_order_integra.Repository.Orders.{Repo, put_order}
use serverless_order_integra.Repository.Stripe.{
  apply_stripe_webhook_change, record_ignored_stripe_webhook,
  record_stripe_webhook_reconciliation_required, stripe_event_duplicate, stripe_event_key,
  store_stripe_event, stripe_current_order, store_stripe_payment_intent_mapping,
}
use serverless_order_integra.Repository.Effects.{duplicate-effect, mapping-effect}

-- The three methods that record a Stripe event.
pub data StripeCall : Type 0 where
  applying : ApplyStripeWebhookChangeInput → StripeCall
  ignoring : RecordIgnoredStripeWebhookInput → StripeCall
  reconciling : RecordStripeWebhookReconciliationRequiredInput → StripeCall

abbrev pub event_of : StripeCall → StripeWebhookEventRecord
event_of (applying i) = i.event
event_of (ignoring i) = i.event
event_of (reconciling i) = i.event

abbrev pub record_stripe_event : StripeCall → Repo RecordResult
record_stripe_event (applying i) = apply_stripe_webhook_change i
record_stripe_event (ignoring i) = record_ignored_stripe_webhook i
record_stripe_event (reconciling i) = record_stripe_webhook_reconciliation_required i

-- The outcome that a call writes down.
abbrev Filed : StripeWebhookEventRecord → Repository → Type 0
Filed event s =
    (o : StripeWebhookOutcome) × (reason : Option String) × (get (stripe_event_key event.event_id)
        s.processed_stripe_events
      ≡ some (record {
        fingerprint = event.event_fingerprint;
        event_type = event.event_type;
        stripe_payment_intent_id = event.stripe_payment_intent_id;
        outcome = o;
        reason_code = reason;
      }))

Filed-of_eq :
    (event : StripeWebhookEventRecord) (o : StripeWebhookOutcome) (reason : Option String)
    (r s : Repository)
    → s ≡ store_stripe_event event o reason r
    → Filed event s
Filed-of_eq event o reason r s e = (
  o,
  reason,
  ap (λ (x : Repository). get (stripe_event_key event.event_id) x.processed_stripe_events) e
      ∙ get-set_self _ _ _,
)

recorded-Filed :
    (c : StripeCall) (r s : Repository)
    → record_stripe_event c r ≡ (ok recorded, s)
    → Filed (event_of c) s
unfolding apply_stripe_webhook_change record_ignored_stripe_webhook
    record_stripe_webhook_reconciliation_required assert_next_order_version stripe_current_order
recorded-Filed (applying i) r s h =
    Filed-of_eq i.event applied none
      (store_stripe_payment_intent_mapping i.ensure_payment_intent_mapping
        i.event.stripe_payment_intent_id i.current_order
        (put_order (key_of i.current_order) i.changed_order r))
      s
      (ground (
        arith,
        duplicate-effect i.event r,
        mapping-effect i.event.stripe_payment_intent_id i.current_order
            i.ensure_payment_intent_mapping r,
      ))
recorded-Filed (ignoring i) r s h =
    Filed-of_eq i.event ignored none
      (store_stripe_payment_intent_mapping i.ensure_payment_intent_mapping
        i.event.stripe_payment_intent_id i.current_order r)
      s
      (ground (
        arith,
        duplicate-effect i.event r,
        mapping-effect i.event.stripe_payment_intent_id i.current_order
            i.ensure_payment_intent_mapping r,
      ))
recorded-Filed (reconciling i) r s h =
    Filed-of_eq i.event reconciliation_required (some i.reason_code) r s
      (ground (arith, duplicate-effect i.event r))

duplicate-Filed :
    (event : StripeWebhookEventRecord) (later : StripeWebhookEventRecord) (s : Repository)
    → Filed event s
    → later.event_id ≡ event.event_id
    → stripe_event_duplicate later s ≡ (
      if str_eq event.event_fingerprint later.event_fingerprint
          then ok (some duplicate)
          else err stripe_event_id_conflict,
      s,
    )
unfolding stripe_event_duplicate
duplicate-Filed event later s (o, reason, f) e = rw (e, f) (ground arith)

-- A Stripe event that one of the three methods has recorded is not recorded again by any of them:
-- with the same fingerprint it is a duplicate, with another one it is refused. Nothing changes.
pub record-record_same_stripe_event :
    (c d : StripeCall) (r s : Repository)
    → record_stripe_event c r ≡ (ok recorded, s)
    → (event_of d).event_id ≡ (event_of c).event_id
    → record_stripe_event d s ≡ (
      if str_eq (event_of c).event_fingerprint (event_of d).event_fingerprint
          then ok duplicate
          else err stripe_event_id_conflict,
      s,
    )
unfolding apply_stripe_webhook_change record_ignored_stripe_webhook
    record_stripe_webhook_reconciliation_required
record-record_same_stripe_event c (applying i) r s h e =
    let x = duplicate-Filed (event_of c) i.event s (recorded-Filed c r s h) e in ground (arith, x)
record-record_same_stripe_event c (ignoring i) r s h e =
    let x = duplicate-Filed (event_of c) i.event s (recorded-Filed c r s h) e in ground (arith, x)
record-record_same_stripe_event c (reconciling i) r s h e =
    let x = duplicate-Filed (event_of c) i.event s (recorded-Filed c r s h) e in ground (arith, x)
