-- ===== src/App/PreparePayment/Creates.antt =====
-- When a payment intent is created at Stripe.
use serverless_order_integra.Base.{
  String, ◌≡◌, refl, ◌⊎◌, inl, inr, ◌∷◌, none, some, arith, get, key_equality, require,
  Option-cases, Result-cases, Bool-cases, ◌&&◌,
}
use serverless_order_integra.Domain.Status.{
  awaiting_payment, not_started, status_eq, status_eq_iff, payment_status_eq, payment_status_eq_iff,
}
use serverless_order_integra.Domain.Order.{Order, OrderPayment}
use serverless_order_integra.Domain.PaymentChange.{apply_payment_status_change}
use serverless_order_integra.Domain.Errors.{stripe_payment_intent_binding_conflict}
use serverless_order_integra.Repository.Contract.{intent_id_of, BindStripePaymentIntentResult}
use serverless_order_integra.Repository.State.{tuple_key}
use serverless_order_integra.Repository.Orders.{get_order}
use serverless_order_integra.App.World.{
  World, seen, drop_next, create_payment_intent, CreateStripePaymentIntentInput,
}
use serverless_order_integra.App.World.Quiet.{IsQuiet, continue-IsQuiet}
use serverless_order_integra.App.PreparePayment.{
  StripePaymentClient, StripePaymentIntentSnapshot, PrepareStripePaymentIntentCommand,
  assert_stripe_snapshot, snapshot_change, retrieve_bound_payment_intent, replay, after_binding,
  creation_input, create_and_bind, bind_created, prepare_stripe_payment_intent,
}

-- An order whose payment may get its intent.
pub record Creatable (o : Order) (p : OrderPayment) : Type 0 where
  pub payment : o.payment ≡ some p
  pub unpaid : o.status ≡ awaiting_payment
  pub unstarted : p.status ≡ not_started
  pub unbound : p.stripe_payment_intent_id ≡ none

-- What Stripe is asked to create for an order and its payment.
pub record IsCreationOf (o : Order) (p : OrderPayment) (i : CreateStripePaymentIntentInput)
    : Type 0 where
  pub merchant : i.merchant_id ≡ o.merchant_id
  pub order : i.order_id ≡ o.order_id
  pub amount : i.amount ≡ p.amount
  pub key : i.stripe_creation_key ≡ p.stripe_creation_key

creation_input-IsCreationOf :
    (stripe : StripePaymentClient) (now : String) (o : Order) (p : OrderPayment)
    → IsCreationOf o p (creation_input stripe now o p)
creation_input-IsCreationOf stripe now o p = record {
  merchant = refl;
  order = refl;
  amount = refl;
  key = refl;
}

module _ (stripe : StripePaymentClient) (now : String) where
  replay-outside :
      (o : Order) (id : String) (v : World) → (replay stripe now o id v).1.outside ≡ v.outside
  unfolding retrieve_bound_payment_intent
  replay-outside o id v = ground arith

  after_binding-IsQuiet :
      (s : StripePaymentIntentSnapshot) (r : BindStripePaymentIntentResult)
      → IsQuiet (after_binding stripe now s r)
  after_binding-IsQuiet s (BindStripePaymentIntentResult.bound o) v = refl
  after_binding-IsQuiet s (BindStripePaymentIntentResult.replayed o) v =
      continue-IsQuiet (require (intent_id_of o.payment) stripe_payment_intent_binding_conflict)
        (replay stripe now o) (replay-outside o) v

  module _ (c : PrepareStripePaymentIntentCommand) where
    bind_created-IsQuiet :
        (o : Order) (p : OrderPayment) (s : StripePaymentIntentSnapshot)
        → IsQuiet (bind_created stripe now c o p s)
    bind_created-IsQuiet o p s w = elim (Result-cases (assert_stripe_snapshot o s none)) [
      | inr (e, h) ↦ rw h refl
      | inl (x, h) ↦
          elim (Result-cases (apply_payment_status_change p (snapshot_change s x now) now)) [
            | inr (e, g) ↦ rw (h, g) refl
            | inl (r, g) ↦
                rw (h, g)
                  (continue-IsQuiet _ (after_binding stripe now s) (after_binding-IsQuiet s) _)
          ]
    ]

    create_and_bind-outside :
        (o : Order) (p : OrderPayment) (w : World)
        → ((create_and_bind stripe now c o p w).1.outside ≡ w.outside)
          ⊎ ((o.status ≡ awaiting_payment)
              × (p.status ≡ not_started)
              × ((create_and_bind stripe now c o p w).1.outside
                  ≡ create_payment_intent (creation_input stripe now o p) ∷ w.outside))
    unfolding create_and_bind
    create_and_bind-outside o p w =
        elim (Bool-cases
          (status_eq o.status awaiting_payment && payment_status_eq p.status not_started)) [
            | inr n ↦ inl (rw n refl)
            | inl y ↦ inr (
              ground (arith, y, status_eq_iff o.status awaiting_payment),
              ground (arith, y, payment_status_eq_iff p.status not_started),
              rw y
                  (continue-IsQuiet _ (bind_created stripe now c o p) (bind_created-IsQuiet o p) _),
            )
          ]

    -- The service creates at most one payment intent, whatever runs in between: for the stored
    -- order of the command, when it awaits payment and its payment is not started and has no
    -- intent, with the merchant id and order id of that order and the amount and creation key of
    -- its payment. In every other case it creates none.
    pub prepare_stripe_payment_intent-outside :
        (w : World)
        → ((prepare_stripe_payment_intent stripe now c w).1.outside ≡ w.outside)
          ⊎ ((o : Order) × (p : OrderPayment) × (get
                  (tuple_key c.merchant_id c.order_id)
                  (seen w).orders
                ≡ some o)
              × Creatable o p
              × (i : CreateStripePaymentIntentInput) × IsCreationOf o p i
              × ((prepare_stripe_payment_intent stripe now c w).1.outside
                  ≡ create_payment_intent i ∷ w.outside))
    unfolding prepare_stripe_payment_intent get_order
    prepare_stripe_payment_intent-outside w =
        elim (Option-cases (get (tuple_key c.merchant_id c.order_id) (seen w).orders)) [
          | inl n ↦ inl (rw n refl)
          | inr (o, f) ↦ elim (Option-cases o.payment) [
            | inl n ↦ inl (rw (f, n) refl)
            | inr (p, g) ↦ elim (Option-cases p.stripe_payment_intent_id) [
              | inr (id, h) ↦ inl (
                  ground (
                    arith,
                    f,
                    g,
                    h,
                    replay-outside o id
                        (record w { repository = seen w; others = drop_next w.others }),
                  ))
              | inl n ↦
                  elim (create_and_bind-outside o p
                    (record w { repository = seen w; others = drop_next w.others })) [
                      | inl s ↦ inl (ground (arith, f, g, n, s))
                      | inr (s, t, k) ↦ inr (
                        o,
                        p,
                        f,
                        record { payment = g; unpaid = s; unstarted = t; unbound = n },
                        creation_input stripe now o p,
                        creation_input-IsCreationOf stripe now o p,
                        ground (arith, f, g, n, k),
                      )
                    ]
            ]
          ]
        ]
