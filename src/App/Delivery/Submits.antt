-- ===== src/App/Delivery/Submits.antt =====
-- Which orders are sent to the delivery provider.
use serverless_order_integra.Base.{
  String, ◌≡◌, refl, ◌⊎◌, inl, inr, ◌∷◌, true, false, Option, none, some, Result, ok, err, arith,
  Bool-cases, Option-cases, Result-cases, eq_iff, get, key_equality, ◌≤◌,
}
use serverless_order_integra.Domain.Status.{
  pending_submission, succeeded, status_eq, status_eq_iff, payment_status_eq_iff,
}
use serverless_order_integra.Domain.Order.{Order, OrderPayment}
use serverless_order_integra.Domain.Errors.{AppError, order_version_conflict}
use serverless_order_integra.Domain.Transition.{payment_has_status}
use serverless_order_integra.Domain.Transition.Permits.{PaidAs}
use serverless_order_integra.Repository.State.{tuple_key}
use serverless_order_integra.Repository.Orders.{get_order}
use serverless_order_integra.App.World.{submit_delivery, World, seen, drop_next}
use serverless_order_integra.App.Delivery.{
  DeliveryRequestedEvent, DeliveryProviderAcceptance, validate_event_against_order,
  resolve_version_conflict, submit_order, process_delivery_event, ProcessDeliveryEventOutcome,
  after_save, save_answer, progressed_after, already_progressed,
}

-- An order that the event may send.
pub record Sendable (event : DeliveryRequestedEvent) (o : Order) : Type 0 where
  pub status : o.status ≡ pending_submission
  pub paid : PaidAs o.payment succeeded
  pub version : o.version ≡ event.aggregate_version
  pub merchant : o.merchant_id ≡ event.merchant_id
  pub key : o.provider.delivery_provider_submission_key ≡ event.delivery_provider_submission_key

payment_has_status-PaidAs :
    (p : Option OrderPayment) → payment_has_status p succeeded ≡ true → PaidAs p succeeded
payment_has_status-PaidAs none h = ground arith
payment_has_status-PaidAs (some p) h = (p, refl, (payment_status_eq_iff p.status succeeded).0 h)

module _ (vendor : Order → String → Result AppError DeliveryProviderAcceptance) (now : String)
    (event : DeliveryRequestedEvent) where
  resolve-outside :
      (o : Order) (v : World) → (resolve_version_conflict event o v).1.outside ≡ v.outside
  unfolding resolve_version_conflict
  resolve-outside o v = ground arith

  after_save-outside :
      (o : Order) (f : Order → ProcessDeliveryEventOutcome) (r : Result AppError (Unit {0}))
      (v : World)
      → (after_save event o f r v).1.outside ≡ v.outside
  after_save-outside o f (ok _) v = refl
  after_save-outside o f (err (order_version_conflict n)) v = resolve-outside o v
  after_save-outside o f (err _) v = refl

  pub save_answer-outside :
      (o : Order) (r : Result AppError (Order × (Order → ProcessDeliveryEventOutcome))) (v : World)
      → (save_answer event o r v).1.outside ≡ v.outside
  save_answer-outside o (err e) v = refl
  save_answer-outside o (ok (q, f)) v = after_save-outside q f _ _

  submit_order-outside :
      (o : Order) (w : World)
      → ((submit_order vendor now event o w).1.outside ≡ w.outside)
        ⊎ ((o.status ≡ pending_submission)
            × PaidAs o.payment succeeded
            × ((submit_order vendor now event o w).1.outside
                ≡ submit_delivery o event.correlation_id ∷ w.outside))
  unfolding submit_order
  submit_order-outside o w = elim (Bool-cases (status_eq o.status pending_submission)) [
    | inr n ↦ inl (rw n refl)
    | inl y ↦ elim (Bool-cases (payment_has_status o.payment succeeded)) [
      | inr n ↦ inl (rw (y, n) refl)
      | inl z ↦ inr (
        (status_eq_iff o.status pending_submission).0 y,
        payment_has_status-PaidAs o.payment z,
        rw (y, z) (save_answer-outside o _ _),
      )
    ]
  ]

  validate-facts :
      (o : Order)
      → validate_event_against_order event o ≡ ok tt
      → (o.merchant_id ≡ event.merchant_id)
        × (o.provider.delivery_provider_submission_key ≡ event.delivery_provider_submission_key)
        × (event.aggregate_version ≤ o.version)
  unfolding validate_event_against_order
  validate-facts o h = ground (
    arith,
    eq_iff o.merchant_id event.merchant_id,
    eq_iff o.provider.delivery_provider_submission_key event.delivery_provider_submission_key,
  )

  sendable :
      (o : Order)
      → validate_event_against_order event o ≡ ok tt
      → progressed_after event o ≡ false
      → o.status ≡ pending_submission
      → PaidAs o.payment succeeded
      → Sendable event o
  sendable o h n s p =
      let (m, k, v) = validate-facts o h in
      record { status = s; paid = p; version = ground (arith, v, n); merchant = m; key = k }

  already-outside :
      (o : Order) (v : World) → (already_progressed vendor now event o v).1.outside ≡ v.outside
  already-outside o v = ground arith

  -- The world after the service has read the order.
  abbrev w_after : World → World
  w_after w = record w { repository = seen w; others = drop_next w.others }

  -- The service makes at most one call to the provider, whatever runs in between: for the stored
  -- order of the event, which is then pending, paid and of the event's version, merchant and
  -- submission key. Otherwise it makes none.
  pub process_delivery_event-outside :
      (w : World)
      → ((process_delivery_event vendor now event w).1.outside ≡ w.outside)
        ⊎ ((o : Order) × (get (tuple_key event.merchant_id event.aggregate_id) (seen w).orders
              ≡ some o)
            × Sendable event o
            × ((process_delivery_event vendor now event w).1.outside
                ≡ submit_delivery o event.correlation_id ∷ w.outside))
  unfolding process_delivery_event get_order
  process_delivery_event-outside w =
      elim (Option-cases (get (tuple_key event.merchant_id event.aggregate_id) (seen w).orders)) [
        | inl n ↦ inl (rw n refl)
        | inr (o, f) ↦ elim (Result-cases (validate_event_against_order event o)) [
          | inr (e, h) ↦ inl (rw (f, h) refl)
          | inl (t, h) ↦ elim (Bool-cases (progressed_after event o)) [
            | inl y ↦ inl (rw (f, h, y) (already-outside o _))
            | inr n ↦ elim (submit_order-outside o (w_after w)) [
              | inl s ↦ inl (rw (f, h, n) s)
              | inr (s, p, c) ↦ inr (o, f, sendable o h n s p, rw (f, h, n) c)
            ]
          ]
        ]
      ]
