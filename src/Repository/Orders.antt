-- ===== src/Repository/Orders.antt =====
-- In-memory repository: creating, reading and saving orders, and binding a payment intent.
use serverless_order_integra.Base.{
  String, str_eq, not, ◌&&◌, Option, none, some, Key, key_equality, string_equality, get, set,
  is_some, require, opt_str_eq,
}
use serverless_order_integra.Base.Exec.{Exec, pure, lift, gets, modify, check, ◌>>=◌, ◌>>◌}
use serverless_order_integra.Domain.Order.{DeliveryProviderCode, Order, provider_code_text}
use serverless_order_integra.Domain.Errors.{
  AppError, idempotency_conflict, merchant_order_id_conflict, order_already_exists,
  stripe_payment_intent_binding_conflict, plain_error,
}
use serverless_order_integra.Repository.Contract.{
  CreateOrderInput, CreateOrderResult, created, BindStripePaymentIntentInput,
  BindStripePaymentIntentResult, bound, stripe_payment_intent_id_from_binding,
  order_from_payment_binding, intent_id_of, resolve_payment_binding_order,
}
use serverless_order_integra.Repository.State.{
  IdempotencyEntry, OrderRef, Repository, tuple_key, key_of, ref_of,
}

-- `Exec` of the repository.
abbrev pub Repo : Type 0 → Type 0
Repo A = Exec Repository AppError A

-- `this.orders.set(key, order)`
abbrev pub put_order : Key → Order → Repository → Repository
put_order key order r = record r { orders = set key order r.orders }

abbrev pub put_idempotency_entry : Key → IdempotencyEntry → Repository → Repository
put_idempotency_entry key entry r = record r {
  idempotency_entries = set key entry r.idempotency_entries;
}

abbrev pub put_merchant_order_id : Key → String → Repository → Repository
put_merchant_order_id key id r = record r { merchant_order_ids = set key id r.merchant_order_ids }

abbrev pub put_provider_order : Key → OrderRef → Repository → Repository
put_provider_order key ref r = record r { provider_orders = set key ref r.provider_orders }

abbrev pub put_stripe_payment_intent : String → OrderRef → Repository → Repository
put_stripe_payment_intent id ref r = record r {
  stripe_payment_intents = set id ref r.stripe_payment_intents;
}

-- `create` where the idempotency key has been used.
abbrev create_again : IdempotencyEntry → CreateOrderInput → Repo CreateOrderResult
create_again entry input = do
  check (str_eq entry.request_fingerprint input.request_fingerprint) idempotency_conflict
  found ← gets (λ r. get (tuple_key input.order.merchant_id entry.order_id) r.orders)
  order ← lift (require found (plain_error "The idempotency record refers to a missing order."))
  pure (CreateOrderResult.replayed order)

-- `create` where it has not.
abbrev create_first : CreateOrderInput → Repo CreateOrderResult
create_first input = do
  let order = input.order
  let merchant_order_id_key = tuple_key order.merchant_id order.merchant_order_id
  taken ← gets (λ r. get merchant_order_id_key r.merchant_order_ids)
  check (not (is_some taken)) merchant_order_id_conflict
  present ← gets (λ r. get (key_of order) r.orders)
  check (not (is_some present)) order_already_exists
  modify (put_order (key_of order) order)
  modify (
      put_idempotency_entry (tuple_key order.merchant_id input.idempotency_key)
        (record { request_fingerprint = input.request_fingerprint; order_id = order.order_id }))
  modify (put_merchant_order_id merchant_order_id_key order.order_id)
  pure (created order)

abbrev create_with : Option IdempotencyEntry → CreateOrderInput → Repo CreateOrderResult
create_with (some entry) input = create_again entry input
create_with none input = create_first input

unfoldable pub create : CreateOrderInput → Repo CreateOrderResult
create input = do
  entry ←
      gets
        (λ r. get (tuple_key input.order.merchant_id input.idempotency_key) r.idempotency_entries)
  create_with entry input

unfoldable pub get_order : String → String → Repo (Option Order)
get_order merchant_id order_id = gets (λ r. get (tuple_key merchant_id order_id) r.orders)

-- The order that a reference names, if any.
abbrev pub follow_ref : Option OrderRef → Repository → Option Order
follow_ref none r = none
follow_ref (some ref) r = get (tuple_key ref.merchant_id ref.order_id) r.orders

unfoldable pub get_by_delivery_provider_order_id :
    DeliveryProviderCode → String → Repo (Option Order)
get_by_delivery_provider_order_id code id =
    gets (λ r. follow_ref (get (tuple_key (provider_code_text code) id) r.provider_orders) r)

unfoldable pub get_by_stripe_payment_intent_id : String → Repo (Option Order)
get_by_stripe_payment_intent_id id = gets (λ r. follow_ref (get id r.stripe_payment_intents) r)

abbrev stored_intent_id : Option Order → Option String
stored_intent_id none = none
stored_intent_id (some order) = intent_id_of order.payment

-- `bindStripePaymentIntent` where the intent id is already bound.
abbrev bind_again :
    OrderRef
    → Option Order
    → String
    → BindStripePaymentIntentInput
    → Repo BindStripePaymentIntentResult
bind_again mapping stored id input = do
  check
      (str_eq mapping.merchant_id input.current_order.merchant_id
        && str_eq mapping.order_id input.current_order.order_id
        && opt_str_eq (stored_intent_id stored) (some id))
      stripe_payment_intent_binding_conflict
  order ← lift (require stored stripe_payment_intent_binding_conflict)
  pure (BindStripePaymentIntentResult.replayed order)

-- `bindStripePaymentIntent` where it is not.
abbrev bind_first :
    Option Order → String → BindStripePaymentIntentInput → Repo BindStripePaymentIntentResult
bind_first stored id input = do
  current ← lift (resolve_payment_binding_order stored input id)
  check (not (opt_str_eq (intent_id_of current.payment) (some id)))
      stripe_payment_intent_binding_conflict
  changed ← lift (order_from_payment_binding input)
  modify (put_order (key_of input.current_order) changed)
  modify (put_stripe_payment_intent id (ref_of changed))
  pure (bound changed)

abbrev bind_with :
    Option OrderRef
    → Option Order
    → String
    → BindStripePaymentIntentInput
    → Repo BindStripePaymentIntentResult
bind_with (some mapping) stored id input = bind_again mapping stored id input
bind_with none stored id input = bind_first stored id input

unfoldable pub bind_stripe_payment_intent :
    BindStripePaymentIntentInput → Repo BindStripePaymentIntentResult
bind_stripe_payment_intent input = do
  id ← lift (stripe_payment_intent_id_from_binding input)
  mapping ← gets (λ r. get id r.stripe_payment_intents)
  stored ← gets (λ r. get (key_of input.current_order) r.orders)
  bind_with mapping stored id input
