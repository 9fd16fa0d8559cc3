-- ===== src/Repository/Binding.antt =====
-- What a bound payment intent guarantees afterwards.
use text.Mathlib.TextPositions.{eq_refl}
use serverless_order_integra.Base.{
  ◌≡◌, String, some, get, key_equality, string_equality, get-set_self, ok, arith,
}
use serverless_order_integra.Domain.Order.{Order}
use serverless_order_integra.Repository.Contract.{
  BindStripePaymentIntentInput, BindStripePaymentIntentResult, bound,
  stripe_payment_intent_id_from_binding, order_from_payment_binding, intent_id_of,
}
use serverless_order_integra.Repository.State.{Repository, key_of, ref_of}
use serverless_order_integra.Repository.Orders.{
  bind_stripe_payment_intent, get_by_stripe_payment_intent_id, put_order, put_stripe_payment_intent,
}
use serverless_order_integra.Repository.Advances.{binding-Binds}

binding-intent :
    (a : BindStripePaymentIntentInput) {id : String} {q : Order}
    → stripe_payment_intent_id_from_binding a ≡ ok id
    → order_from_payment_binding a ≡ ok q
    → intent_id_of q.payment ≡ some id
unfolding stripe_payment_intent_id_from_binding order_from_payment_binding
binding-intent a h g = ground arith

-- What a binding that was made has read and written.
record Bound (a : BindStripePaymentIntentInput) (id : String) (q : Order) (r s : Repository)
    : Type 0 where
  named : stripe_payment_intent_id_from_binding a ≡ ok id
  made : order_from_payment_binding a ≡ ok q
  wrote : s ≡ put_stripe_payment_intent id (ref_of q) (put_order (key_of (a.current_order)) q r)

bound-Bound :
    (a : BindStripePaymentIntentInput) (r s : Repository) {q : Order}
    → bind_stripe_payment_intent a r ≡ (ok (bound q), s)
    → (id : String) × (stripe_payment_intent_id_from_binding a ≡ ok id) × Bound a id q r s
unfolding bind_stripe_payment_intent
bound-Bound a r s h = ground arith

module _ (a : BindStripePaymentIntentInput) (r s : Repository) {q : Order} where
  -- After a payment intent was bound to an order, looking the order up by the intent gives the
  -- bound order.
  pub get_by_intent-bind :
      {id : String}
      → bind_stripe_payment_intent a r ≡ (ok (bound q), s)
      → intent_id_of q.payment ≡ some id
      → get_by_stripe_payment_intent_id id s ≡ (ok (some q), s)
  unfolding get_by_stripe_payment_intent_id
  get_by_intent-bind {id} h i =
      let (name, named, b) = bound-Bound a r s h in
      let k = binding-Binds a named b.made in
      let same : name ≡ id = cc (binding-intent a named b.made, i) in
      let x : get id s.stripe_payment_intents ≡ some (ref_of q) =
        rw (b.wrote, ← same) (get-set_self _ _ _) in
      let y : get (key_of q) s.orders ≡ some q = rw (b.wrote, k.key) (get-set_self _ _ _) in
      ground (arith, x, y)

  -- The same binding made once more returns the bound order as a replay and changes nothing.
  pub bind-bind :
      bind_stripe_payment_intent a r ≡ (ok (bound q), s)
      → bind_stripe_payment_intent a s ≡ (ok (BindStripePaymentIntentResult.replayed q), s)
  unfolding bind_stripe_payment_intent
  bind-bind h =
      let (id, named, b) = bound-Bound a r s h in
      let k = binding-Binds a named b.made in
      let i = binding-intent a named b.made in
      let x : get id s.stripe_payment_intents ≡ some (ref_of q) = rw b.wrote (get-set_self _ _ _) in
      let y : get (key_of a.current_order) s.orders ≡ some q = rw b.wrote (get-set_self _ _ _) in
      ground (arith, x, y, i, k.key, eq_refl q.merchant_id, eq_refl q.order_id, eq_refl id)
