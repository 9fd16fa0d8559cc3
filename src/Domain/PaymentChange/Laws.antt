-- ===== src/Domain/PaymentChange/Laws.antt =====
-- Laws of `applyPaymentStatusChange` (src/domain/payment-status-transition.ts).
use text.Mathlib.TextPositions.{eq_refl}
use serverless_order_integra.Base.{
  String, ◌≡◌, refl, true, Option, none, some, ok, fresh, same, arith, eq_iff, NotAfter, or_default,
  or_else,
}
use serverless_order_integra.Domain.Status.{is_terminal_payment_status, payment_status_eq_iff}
use serverless_order_integra.Domain.Order.{OrderPayment, PaymentFailure}
use serverless_order_integra.Domain.PaymentChange.{
  PaymentStatusChange, id_matches, same_failure, apply_payment_status_change,
}

-- What a change of a payment keeps and records.
pub record Settles (p : OrderPayment) (c : PaymentStatusChange) (at : String) (q : OrderPayment)
    : Type 0 where
  pub amount : q.amount ≡ p.amount
  pub creation_key : q.stripe_creation_key ≡ p.stripe_creation_key
  pub created : q.created_at ≡ p.created_at
  pub status : q.status ≡ c.target_status
  pub bound : q.stripe_payment_intent_id ≡ some c.stripe_payment_intent_id
  pub last_failure : q.last_failure ≡ or_else c.last_failure p.last_failure
  pub updated : q.updated_at ≡ at
  pub in_order : NotAfter p.updated_at at
  pub not_before : NotAfter p.created_at at

id_matches-or_default :
    (o : Option String) (given : String) → id_matches o given ≡ true → or_default o given ≡ given
id_matches-or_default none given h = refl
id_matches-or_default (some bound) given h = ground (arith, eq_iff bound given)

same_failure_refl : (f : Option PaymentFailure) → same_failure f f ≡ true
unfolding same_failure
same_failure_refl none = refl
same_failure_refl (some f) = ground (arith, eq_refl f.reason_code, eq_refl f.occurred_at)

module _ (p : OrderPayment) (c : PaymentStatusChange) (at : String) where
  -- A change that is applied keeps the amount, the creation key and the creation time, reaches the
  -- target status, binds the given id, and is stamped with a time that is before neither the
  -- payment's creation nor its last update.
  pub apply_payment_status_change-Settles :
      {q : OrderPayment} → apply_payment_status_change p c at ≡ ok (fresh q) → Settles p c at q
  unfolding apply_payment_status_change
  apply_payment_status_change-Settles h =
      ground (arith, id_matches-or_default p.stripe_payment_intent_id c.stripe_payment_intent_id)

  -- A change that is applied to a payment in a terminal status keeps that status.
  pub terminal_payment_keeps_status :
      {q : OrderPayment}
      → is_terminal_payment_status p.status ≡ true
      → apply_payment_status_change p c at ≡ ok (fresh q)
      → q.status ≡ p.status
  unfolding apply_payment_status_change
  terminal_payment_keeps_status t h = ground (arith, payment_status_eq_iff p.status c.target_status)

  -- A change that is applied to a payment with an intent id keeps that id.
  pub intent_id_kept :
      {q : OrderPayment} {id : String}
      → p.stripe_payment_intent_id ≡ some id
      → apply_payment_status_change p c at ≡ ok (fresh q)
      → q.stripe_payment_intent_id ≡ some id
  unfolding apply_payment_status_change
  intent_id_kept b h = ground arith

  -- Applying the same change once more, at any time not before the payment's creation, gives the
  -- payment back: a replayed change is not a second change.
  pub apply_payment_status_change_idempotent :
      {q : OrderPayment} (later : String)
      → apply_payment_status_change p c at ≡ ok (fresh q)
      → NotAfter p.created_at later
      → apply_payment_status_change q c later ≡ ok same
  unfolding apply_payment_status_change
  apply_payment_status_change_idempotent {q} later h t =
      let s = apply_payment_status_change-Settles h in
      ground (
        arith,
        s.created,
        s.bound,
        s.status,
        s.last_failure,
        eq_refl c.stripe_payment_intent_id,
        payment_status_eq_iff q.status c.target_status,
        same_failure_refl q.last_failure,
      )
