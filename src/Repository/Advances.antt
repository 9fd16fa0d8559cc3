-- ===== src/Repository/Advances.antt =====
-- How the calls of the repository change what is stored of an order.
use serverless_order_integra.Base.{
  suc, String, ◌≡◌, refl, sym, ap, ◌∙◌, subst, ◌⊎◌, inl, inr, Bool, true, false, Option, none, some,
  Key, key_equality, string_equality, get, get-set, strs_eq, strs_eq_iff, Bool-cases, arith, ok,
}
use serverless_order_integra.Domain.Order.{Order}
use serverless_order_integra.Repository.Contract.{
  BindStripePaymentIntentInput, stripe_payment_intent_id_from_binding, order_from_payment_binding,
}
use serverless_order_integra.Repository.State.{Repository, key_of}
use serverless_order_integra.Repository.Orders.{put_order}
use serverless_order_integra.Repository.Saving.{store_claim, claimed_provider_id, updated_order}
use serverless_order_integra.Repository.Stripe.{store_stripe_payment_intent_mapping}
use serverless_order_integra.Repository.Effects.{
  create-effect, save-effect, bind-effect, webhook-effect, apply-effect, ignore-effect,
  reconcile-effect, Fresh, put_changed, NextVersion,
}
use serverless_order_integra.Repository.Calls.{
  Call, creating, saving, binding, recording, applying, ignoring, reconciling, run,
}

-- Every stored order stays stored, unchanged or with the next version.
pub record Advances (r s : Repository) : Type 0 where
  pub at :
      (k : Key) (o : Order)
      → get k r.orders ≡ some o
      → (q : Order) × (get k s.orders ≡ some q) × ((q ≡ o) ⊎ (q.version ≡ suc o.version))

Advances-refl : (r : Repository) → Advances r r
Advances-refl r = record { at = λ k o h. (o, h, inl refl) }

Advances-of_eq : {r s : Repository} → s ≡ r → Advances r s
Advances-of_eq {r} e = subst (Advances r) (sym e) (Advances-refl r)

module _ (k : Key) (q : Order) (r : Repository) where
  put_order-Advances :
      (old : Order)
      → get k r.orders ≡ some old
      → q.version ≡ suc old.version
      → Advances r (put_order k q r)
  put_order-Advances old h v = record {
    at = λ j p g. elim (Bool-cases (strs_eq k j)) [
      | inl y ↦ (q, rw (get-set, y), inr (cc ((strs_eq_iff k j).0 y)))
      | inr n ↦ (p, rw (get-set, n) g, inl refl)
    ];
  }

  insert-Advances : get k r.orders ≡ none → Advances r (put_order k q r)
  insert-Advances h = record {
    at = λ j p g. elim (Bool-cases (strs_eq k j)) [
      | inl y ↦ cc ((strs_eq_iff k j).0 y)
      | inr n ↦ (p, rw (get-set, n) g, inl refl)
    ];
  }

-- `Advances` looks at the orders alone.
Advances-orders : {r s t : Repository} → s.orders ≡ t.orders → Advances r t → Advances r s
Advances-orders {r} {s} e a = record {
  at = λ k o h. let (q, g, v) = a.at k o h in (q, ap (get k) e ∙ g, v);
}

pub orders-store_claim :
    (c : Option String) (o : Order) (r : Repository) → (store_claim c o r).orders ≡ r.orders
orders-store_claim none o r = refl
orders-store_claim (some id) o r = refl

pub orders-store_mapping :
    (b : Bool) (id : String) (o : Order) (r : Repository)
    → (store_stripe_payment_intent_mapping b id o r).orders ≡ r.orders
orders-store_mapping true id o r = refl
orders-store_mapping false id o r = refl

-- What a checked binding stores.
pub record Binds (input : BindStripePaymentIntentInput) (q : Order) : Type 0 where
  pub version : q.version ≡ suc (input.current_order.version)
  pub key : key_of q ≡ key_of (input.current_order)
  pub merchant_order_id : q.merchant_order_id ≡ input.current_order.merchant_order_id

pub binding-Binds :
    (input : BindStripePaymentIntentInput) {id : String} {q : Order}
    → stripe_payment_intent_id_from_binding input ≡ ok id
    → order_from_payment_binding input ≡ ok q
    → Binds input q
unfolding stripe_payment_intent_id_from_binding order_from_payment_binding
binding-Binds input h g = ground arith

put_current-Advances :
    (r : Repository) (current q : Order)
    → Fresh r current
    → q.version ≡ suc current.version
    → Advances r (put_order (key_of current) q r)
put_current-Advances r current q (old, found, same) v =
    put_order-Advances (key_of current) q r old found (v ∙ ap suc (sym same))

put_changed-Advances :
    (r : Repository) (changed : Option Order) (current : Order)
    → Fresh r current
    → NextVersion changed current
    → Advances r (put_changed changed current r)
put_changed-Advances r none current f v = Advances-refl r
put_changed-Advances r (some q) current f v = put_current-Advances r current q f v

-- Whatever the call and its result, every order that was stored is stored afterwards under the same
-- key, either unchanged or with the next version.
pub call-Advances : (c : Call) (r : Repository) → Advances r (run c r).1
call-Advances (creating i) r = elim (create-effect i r) [
  | inl e ↦ Advances-of_eq e
  | inr (absent, e) ↦
      Advances-orders (ap (λ (x : _ × Repository). x.1.orders) e)
        (insert-Advances (key_of i.order) i.order r absent)
]
call-Advances (saving o v m) r = elim (save-effect o v m r) [
  | inl e ↦ Advances-of_eq e
  | inr (old, found, same, next, e) ↦
      Advances-orders
        (ap (λ (x : _ × Repository). x.1.orders) e
          ∙ orders-store_claim (claimed_provider_id m o) o _)
        (put_order-Advances (key_of o) (updated_order old o) r old found (next ∙ ap suc (sym same)))
]
call-Advances (binding i) r = elim (bind-effect i r) [
  | inl e ↦ Advances-of_eq e
  | inr (id, q, f, named, made, e) ↦
      Advances-orders (ap (λ (x : _ × Repository). x.1.orders) e)
        (put_current-Advances r i.current_order q f (binding-Binds i named made).version)
]
call-Advances (recording i) r = elim (webhook-effect i r) [
  | inl e ↦ Advances-of_eq e
  | inr (f, v, new, e) ↦
      Advances-orders (ap (λ (x : _ × Repository). x.1.orders) e)
        (put_changed-Advances r i.changed_order i.current_order f v)
]
call-Advances (applying i) r = elim (apply-effect i r) [
  | inl e ↦ Advances-of_eq e
  | inr (f, v, e) ↦
      Advances-orders
        (ap (λ (x : _ × Repository). x.1.orders) e
          ∙ orders-store_mapping i.ensure_payment_intent_mapping _ i.current_order _)
        (put_current-Advances r i.current_order i.changed_order f v)
]
call-Advances (ignoring i) r = elim (ignore-effect i r) [
  | inl e ↦ Advances-of_eq e
  | inr (f, e) ↦
      Advances-orders
        (ap (λ (x : _ × Repository). x.1.orders) e
          ∙ orders-store_mapping i.ensure_payment_intent_mapping _ i.current_order _)
        (Advances-refl r)
]
call-Advances (reconciling i) r = elim (reconcile-effect i r) [
  | inl e ↦ Advances-of_eq e
  | inr e ↦ Advances-orders (ap (λ (x : _ × Repository). x.1.orders) e) (Advances-refl r)
]
