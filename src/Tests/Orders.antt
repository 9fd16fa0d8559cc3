-- ===== src/Tests/Orders.antt =====
-- The results on orders and payments, at the life of one order.
use serverless_order_integra.Base.{
  ◌≡◌, ◌≢◌, ◌↔◌, refl, false, some, ok, same, fresh, arith, str_lt, str_length, NotAfter,
}
use serverless_order_integra.Domain.Status.{
  pending_submission, picked_up, delivered, status_eq, payment_status_eq, is_terminal_order_status,
  is_terminal_payment_status,
}
use serverless_order_integra.Domain.Order.{Order}
use serverless_order_integra.Domain.Transition.{
  allowed_transition, validate_payment_gate, validate_failure, provider_for_change,
  apply_order_status_change,
}
use serverless_order_integra.Domain.Transition.Permits.{Permits}
use serverless_order_integra.Domain.Transition.Decides.{apply_succeeds_iff}
use serverless_order_integra.Domain.PaymentChange.{same_failure, apply_payment_status_change}
use serverless_order_integra.Domain.PaymentChange.Laws.{apply_payment_status_change_idempotent}
use serverless_order_integra.Domain.Lifecycle.{
  Step, Reach, here, next, IsSound, is_before_acceptance,
}
use serverless_order_integra.Domain.Lifecycle.Paths.{
  IsNew, new_order_stays-IsSound, Keeps, Reach-Keeps, provider_order_id_kept, no_second_submission,
  terminal_order_final,
}
use serverless_order_integra.Tests.Samples.{
  nine, ten, eleven, unstarted, paid_to, paid, new_order, change_to, pending_order, acceptance,
  submitted_sample, picked_up_sample, delivered_sample, late_failure, noted,
}

paying : apply_payment_status_change unstarted paid_to ten ≡ ok (fresh paid)
unfolding apply_payment_status_change is_terminal_payment_status payment_status_eq same_failure
    str_lt str_length
paying = refl

releasing :
    apply_order_status_change
      (record new_order { payment = some paid })
      (change_to pending_submission)
      ten
    ≡ ok (fresh pending_order)
unfolding apply_order_status_change status_eq allowed_transition validate_failure
    validate_payment_gate provider_for_change str_lt
releasing = refl

accepting : apply_order_status_change pending_order acceptance eleven ≡ ok (fresh submitted_sample)
unfolding apply_order_status_change status_eq allowed_transition validate_failure
    validate_payment_gate provider_for_change str_lt
accepting = refl

picking_up :
    apply_order_status_change submitted_sample (change_to picked_up) eleven
    ≡ ok (fresh picked_up_sample)
unfolding apply_order_status_change status_eq allowed_transition validate_failure
    validate_payment_gate provider_for_change str_lt
picking_up = refl

delivering :
    apply_order_status_change picked_up_sample (change_to delivered) eleven
    ≡ ok (fresh delivered_sample)
unfolding apply_order_status_change status_eq allowed_transition validate_failure
    validate_payment_gate provider_for_change str_lt
delivering = refl

-- An order that is not paid is not released.
unpaid_not_released :
    apply_order_status_change new_order (change_to pending_submission) ten
    ≢ ok (fresh pending_order)
unfolding apply_order_status_change status_eq allowed_transition validate_failure
    validate_payment_gate provider_for_change str_lt
unpaid_not_released = ground arith

to_pending : Reach new_order pending_order
to_pending = next here (
    Step.settle_and_change unstarted (fresh paid) paid_to (change_to pending_submission) ten refl
      refl paying releasing)

to_submitted : Reach new_order submitted_sample
to_submitted = next to_pending (Step.change acceptance eleven accepting)

to_delivered : Reach submitted_sample delivered_sample
to_delivered =
    next (next here (Step.change (change_to picked_up) eleven picking_up))
      (Step.change (change_to delivered) eleven delivering)

new_order-IsNew : IsNew new_order
new_order-IsNew = record { status = refl; no_failure = refl; no_id = refl; no_acceptance = refl }

new_order_stays-IsSound_example : IsSound submitted_sample
new_order_stays-IsSound_example =
    new_order_stays-IsSound new_order submitted_sample new_order-IsNew to_submitted

Reach-Keeps_example : Keeps new_order submitted_sample
Reach-Keeps_example = Reach-Keeps to_submitted

provider_order_id_kept_example :
    delivered_sample.provider.delivery_provider_order_id ≡ some "delivery-1"
provider_order_id_kept_example = provider_order_id_kept to_delivered refl

submitted_sample-IsSound : IsSound submitted_sample
submitted_sample-IsSound =
    new_order_stays-IsSound new_order submitted_sample new_order-IsNew to_submitted

no_second_submission_example : is_before_acceptance delivered_sample.status ≡ false
no_second_submission_example = no_second_submission submitted_sample-IsSound to_delivered refl

terminal_order_final_example : delivered_sample ≡ delivered_sample
unfolding is_terminal_order_status
terminal_order_final_example = terminal_order_final here refl

apply_succeeds_iff_example :
    ((q : Order) × (apply_order_status_change pending_order acceptance eleven ≡ ok (fresh q)))
    ↔ Permits pending_order acceptance eleven
apply_succeeds_iff_example = apply_succeeds_iff pending_order acceptance eleven

noting : apply_payment_status_change paid late_failure eleven ≡ ok (fresh noted)
unfolding apply_payment_status_change is_terminal_payment_status payment_status_eq same_failure
    str_lt str_length
noting = refl

nine-NotAfter : NotAfter nine eleven
unfolding str_lt
nine-NotAfter = refl

apply_payment_status_change_idempotent_example :
    apply_payment_status_change paid paid_to eleven ≡ ok same
apply_payment_status_change_idempotent_example =
    apply_payment_status_change_idempotent unstarted paid_to ten eleven paying nine-NotAfter
