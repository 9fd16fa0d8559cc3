-- ===== src/App/CreateOrder/Stored.antt =====
-- What a new order is.
use Prim.Native.String.append
use Prim.Native.String.{◌++◌ as str_append}
use serverless_order_integra.Base.{
  ℕ, ◌+◌, ◌*◌, ◌==◌, String, ◌≡◌, refl, List, [], ◌∷◌, Result-cases, none, inl, inr, false, sym,
  subst, some, ok, arith, get, key_equality, get-set_self, str_length,
}
use serverless_order_integra.Domain.Order.{
  Money, OrderPayment, Order, OrderLine, create_initial_order_payment,
}
use serverless_order_integra.Domain.Status.{not_started}
use serverless_order_integra.Domain.Lifecycle.Paths.{IsNew}
use serverless_order_integra.Domain.Transition.Permits.{PaidAs}
use serverless_order_integra.Repository.Contract.{CreateOrderInput, created}
use serverless_order_integra.Repository.State.{key_of}
use serverless_order_integra.Repository.Orders.{create}
use serverless_order_integra.Repository.Idempotency.{create-created}
use serverless_order_integra.App.World.{World, seen, call}
use serverless_order_integra.App.CreateOrder.{
  CreateOrderRequest, CreateOrderCommand, create_order, creation, creation_key, identifier,
  calculate_order_total, total_of,
}

-- The sum of the lines, without an accumulator.
abbrev pub sum_of : List OrderLine → ℕ
sum_of [] = 0
sum_of (line ∷ lines) = line.quantity * line.unit_price.amount_minor + sum_of lines

pub total_of-sum_of : (n : ℕ) (lines : List OrderLine) → total_of n lines ≡ n + sum_of lines
total_of-sum_of n [] = ground arith
total_of-sum_of n (line ∷ lines) =
    ground (arith, total_of-sum_of (n + line.quantity * line.unit_price.amount_minor) lines)

-- An order as the service stores it.
pub record IsFirst (c : CreateOrderCommand) (now : String) (o : Order) : Type 0 where
  pub fresh : IsNew o
  pub unpaid : PaidAs o.payment not_started
  pub version : o.version ≡ 1
  pub merchant : o.merchant_id ≡ c.merchant_id
  pub merchant_order_id : o.merchant_order_id ≡ c.request.merchant_order_id
  pub items : o.items ≡ c.request.items
  pub total : o.total.amount_minor ≡ sum_of c.request.items
  pub created_at : o.created_at ≡ now
  pub updated_at : o.updated_at ≡ now

initial_payment :
    (total : Money) (key now : String) {p : OrderPayment}
    → create_initial_order_payment total key now ≡ ok p
    → p.status ≡ not_started
unfolding create_initial_order_payment
initial_payment total key now h = ground arith

module _ (fingerprint : CreateOrderRequest → String) (first_id second_id now : String)
    (c : CreateOrderCommand) where
  create_order-shape :
      (w v : World) {q : Order}
      → create_order fingerprint first_id second_id now c w ≡ (ok (created q), v)
      → (p : OrderPayment) × (p.status ≡ not_started)
        × (create (creation fingerprint first_id second_id now c p) (seen w)
            ≡ (ok (created q), v.repository))
  unfolding create_order
  create_order-shape w v {q} h =
      let total = calculate_order_total c.request in
      let key = creation_key c.merchant_id (identifier "ord_" first_id) in
      elim (Result-cases (create_initial_order_payment total key now)) [
        | inr (e, n) ↦ ground (arith, n)
        | inl (p, y) ↦ (p, initial_payment total key now y, ground (arith, y))
      ]

  order_for-IsFirst :
      (p : OrderPayment)
      → p.status ≡ not_started
      → IsFirst c now (creation fingerprint first_id second_id now c p).order
  unfolding calculate_order_total
  order_for-IsFirst p s = record {
    fresh = record { status = refl; no_failure = refl; no_id = refl; no_acceptance = refl };
    unpaid = (p, refl, s);
    version = refl;
    merchant = refl;
    merchant_order_id = refl;
    items = refl;
    total = ground (arith, total_of-sum_of 0 c.request.items);
    created_at = refl;
    updated_at = refl;
  }

  -- An order that the service reports as created is new: it awaits a payment that is not started,
  -- has version 1, the merchant, reference and lines of the request, the sum of the lines as its
  -- total and the clock's reading as its times, has neither a provider order id nor failure
  -- details; and it is what the repository then holds under its key.
  pub create_order-IsFirst :
      (w v : World) {q : Order}
      → create_order fingerprint first_id second_id now c w ≡ (ok (created q), v)
      → IsFirst c now q × (get (key_of q) v.repository.orders ≡ some q)
  create_order-IsFirst w v {q} h =
      let (p, s, g) = create_order-shape w v h in
      let a = creation fingerprint first_id second_id now c p in
      let (e, x) = create-created a (seen w) v.repository g in
      (
        subst (IsFirst c now) (sym e) (order_for-IsFirst p s),
        rw (x, e) (get-set_self (key_of a.order) a.order (seen w).orders),
      )

creation_key_not_empty : (m i : String) → (str_length (creation_key m i) == 0) ≡ false
unfolding str_length
creation_key_not_empty m i =
    rw (append.cons "s" "tripe-payment-intent:" (str_append m (str_append ":" i))) (ground arith)

module _ (fingerprint : CreateOrderRequest → String) (first_id second_id now : String)
    (c : CreateOrderCommand) where
  -- The service always gets to the repository: it stores what `create` stores for some order that
  -- is new in the same sense, and its result is the one that `create` gives.
  pub create_order-create :
      (w : World)
      → (input : CreateOrderInput) × IsFirst c now input.order
        × (input.idempotency_key ≡ c.idempotency_key)
        × (input.request_fingerprint ≡ fingerprint c.request)
        × (create_order fingerprint first_id second_id now c w ≡ call (create input) w)
  unfolding create_order create_initial_order_payment
  create_order-create w =
      let p : OrderPayment = record {
        status = not_started;
        amount = calculate_order_total c.request;
        stripe_creation_key = creation_key c.merchant_id (identifier "ord_" first_id);
        stripe_payment_intent_id = none;
        last_failure = none;
        created_at = now;
        updated_at = now;
      } in
      (
        creation fingerprint first_id second_id now c p,
        order_for-IsFirst fingerprint first_id second_id now c p refl,
        refl,
        refl,
        rw (creation_key_not_empty c.merchant_id (identifier "ord_" first_id)) refl,
      )
