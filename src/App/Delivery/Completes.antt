-- ===== src/App/Delivery/Completes.antt =====
-- What becomes of an order that may be sent.
use serverless_order_integra.Base.{
  String, ◌≡◌, ◌∷◌, false, true, some, Result, ok, err, arith, eq_iff, get, key_equality,
}
use serverless_order_integra.Domain.Status.{
  pending_submission, status_eq, status_eq_iff, succeeded, payment_status_eq_iff,
}
use serverless_order_integra.Domain.Order.{Order}
use serverless_order_integra.Domain.Errors.{AppError, vendor_submission}
use serverless_order_integra.Domain.Transition.{payment_has_status}
use serverless_order_integra.Repository.State.{tuple_key}
use serverless_order_integra.Repository.Orders.{get_order}
use serverless_order_integra.App.World.{submit_delivery, World, seen, drop_next}
use serverless_order_integra.App.Delivery.{
  DeliveryRequestedEvent, DeliveryProviderAcceptance, validate_event_against_order,
  progressed_after, submit_order, process_delivery_event,
}
use serverless_order_integra.App.Delivery.Submits.{Sendable, save_answer-outside}

module _ (vendor : Order → String → Result AppError DeliveryProviderAcceptance) (now : String)
    (event : DeliveryRequestedEvent) (o : Order) (s : Sendable event o) where
  validate_of_Sendable : validate_event_against_order event o ≡ ok tt
  unfolding validate_event_against_order
  validate_of_Sendable = ground (
    arith,
    s.merchant,
    s.key,
    s.version,
    eq_iff o.merchant_id event.merchant_id,
    eq_iff o.provider.delivery_provider_submission_key event.delivery_provider_submission_key,
  )

  not_progressed : progressed_after event o ≡ false
  not_progressed = ground (arith, s.version)

  is_pending : status_eq o.status pending_submission ≡ true
  is_pending = (status_eq_iff o.status pending_submission).1 s.status

  is_paid : payment_has_status o.payment succeeded ≡ true
  is_paid =
      let (p, e, q) = s.paid in ground (arith, e, (payment_status_eq_iff p.status succeeded).1 q)

  -- An order that the event may send is sent to the provider, once, whatever the provider answers
  -- and whatever runs in between.
  pub order_is_sent :
      (w : World)
      → get (tuple_key event.merchant_id event.aggregate_id) (seen w).orders ≡ some o
      → (process_delivery_event vendor now event w).1.outside
        ≡ submit_delivery o event.correlation_id ∷ w.outside
  unfolding process_delivery_event get_order submit_order
  order_is_sent w f =
      rw (f, validate_of_Sendable, not_progressed, is_pending, is_paid)
        (save_answer-outside vendor now event o _ _)

  -- When the provider's answer is an error that may be tried again, the service fails with that
  -- error and writes nothing.
  pub retryable_failure_writes_nothing :
      (w : World) (code message : String)
      → get (tuple_key event.merchant_id event.aggregate_id) (seen w).orders ≡ some o
      → vendor o event.correlation_id ≡ err (vendor_submission code message true)
      → process_delivery_event vendor now event w ≡ (
        err (vendor_submission code message true),
        record w {
          repository = seen w;
          others = drop_next w.others;
          outside = submit_delivery o event.correlation_id ∷ w.outside;
        },
      )
  unfolding process_delivery_event get_order submit_order
  retryable_failure_writes_nothing w code message f g =
      ground (arith, f, validate_of_Sendable, not_progressed, is_pending, is_paid, g)
