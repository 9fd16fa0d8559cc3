-- ===== src/Repository/Preserves.antt =====
-- Every call keeps the repository well formed.
use serverless_order_integra.Base.{
  ◌≡◌, refl, sym, ◌∙◌, subst, inl, inr, true, false, Bool, Option, none, some, String, key_equality,
  string_equality, get, get-set_self,
}
use serverless_order_integra.Domain.Order.{Order}
use serverless_order_integra.Repository.State.{Repository, tuple_key, key_of}
use serverless_order_integra.Repository.Orders.{
  put_order, put_idempotency_entry, put_merchant_order_id,
}
use serverless_order_integra.Repository.Saving.{
  store_claim, claimed_provider_id, provider_key, updated_order,
}
use serverless_order_integra.Repository.Stripe.{store_stripe_payment_intent_mapping}
use serverless_order_integra.Repository.WellFormed.{
  IsWellFormed, Stored, replace-Extends, insert-Extends, put_order-IsWellFormed,
  put_idempotency_entry-IsWellFormed, put_merchant_order_id-IsWellFormed,
  put_provider_order-IsWellFormed, put_stripe_payment_intent-IsWellFormed,
}
use serverless_order_integra.Repository.Effects.{
  create-effect, save-effect, bind-effect, webhook-effect, apply-effect, ignore-effect,
  reconcile-effect, Fresh, put_changed,
}
use serverless_order_integra.Repository.Advances.{binding-Binds}
use serverless_order_integra.Repository.Calls.{
  Call, creating, saving, binding, recording, applying, ignoring, reconciling, run,
}

-- The caller's order is what the repository held at that version: a stored order of the same
-- version has its merchant order id.
abbrev pub Snapshot : Repository → Order → Type 0
Snapshot r current =
    (old : Order)
    → get (key_of current) r.orders ≡ some old
    → old.version ≡ current.version
    → current.merchant_order_id ≡ old.merchant_order_id

abbrev pub SameIdentity : Order → Order → Type 0
SameIdentity q current =
    (key_of q ≡ key_of current) × (q.merchant_order_id ≡ current.merchant_order_id)

abbrev pub ChangedIdentity : Option Order → Order → Type 0
ChangedIdentity none current = Unit
ChangedIdentity (some q) current = SameIdentity q current

-- What the callers of the repository keep to: the order that they pass is one that they read, and
-- the changed order is the same order.
abbrev pub Respects : Call → Repository → Type 0
Respects (binding i) r = Snapshot r i.current_order
Respects (recording i) r =
    Snapshot r i.current_order × ChangedIdentity i.changed_order i.current_order
Respects (applying i) r = Snapshot r i.current_order × SameIdentity i.changed_order i.current_order
Respects _ r = Unit

module _ (r : Repository) (w : IsWellFormed r) where
  create_writes-IsWellFormed :
      (o : Order) (key fingerprint : String)
      → get (key_of o) r.orders ≡ none
      → IsWellFormed (
          put_merchant_order_id (tuple_key o.merchant_id o.merchant_order_id) o.order_id (
            put_idempotency_entry
              (tuple_key o.merchant_id key)
              (record { request_fingerprint = fingerprint; order_id = o.order_id })
              (put_order (key_of o) o r)))
  create_writes-IsWellFormed o key fp absent =
      let s = put_order (key_of o) o r in
      let found = get-set_self (key_of o) o r.orders in
      let w1 =
        put_order-IsWellFormed (key_of o) o r refl (insert-Extends (key_of o) o r absent) w in
      let w2 =
        put_idempotency_entry-IsWellFormed s w1 o.merchant_id key
          (record { request_fingerprint = fp; order_id = o.order_id }) (o, found) in
      put_merchant_order_id-IsWellFormed _ w2 o found

  put_current-IsWellFormed :
      (current q : Order)
      → Fresh r current
      → Snapshot r current
      → SameIdentity q current
      → IsWellFormed (put_order (key_of current) q r)
  put_current-IsWellFormed current q (old, found, same) snap (k, m) =
      put_order-IsWellFormed (key_of current) q r (sym k)
        (replace-Extends (key_of current) q r old found (m ∙ snap old found same)) w

  put_changed-IsWellFormed :
      (current : Order) (changed : Option Order)
      → Fresh r current
      → Snapshot r current
      → ChangedIdentity changed current
      → IsWellFormed (put_changed changed current r)
  put_changed-IsWellFormed current none f snap c = w
  put_changed-IsWellFormed current (some q) f snap c = put_current-IsWellFormed current q f snap c

  save_writes-IsWellFormed :
      (o old : Order)
      → get (key_of o) r.orders ≡ some old
      → IsWellFormed (put_order (key_of o) (updated_order old o) r)
  save_writes-IsWellFormed o old found =
      put_order-IsWellFormed (key_of o) (updated_order old o) r (w.keyed _ old found)
        (replace-Extends (key_of o) (updated_order old o) r old found refl) w

  store_claim-IsWellFormed :
      (c : Option String) (o : Order) → Stored r (key_of o) → IsWellFormed (store_claim c o r)
  store_claim-IsWellFormed none o s = w
  store_claim-IsWellFormed (some id) o s =
      put_provider_order-IsWellFormed r w (provider_key o id) o s

  store_mapping-IsWellFormed :
      (b : Bool) (id : String) (o : Order)
      → Stored r (key_of o)
      → IsWellFormed (store_stripe_payment_intent_mapping b id o r)
  store_mapping-IsWellFormed true id o s = put_stripe_payment_intent-IsWellFormed r w id o s
  store_mapping-IsWellFormed false id o s = w

-- The events are not looked at by the invariant.
with_events :
    {r : Repository} (s : Repository)
    → s ≡ record r {
      processed_provider_events = s.processed_provider_events;
      processed_stripe_events = s.processed_stripe_events;
    }
    → IsWellFormed r
    → IsWellFormed s
with_events {r} s e w = subst IsWellFormed (sym e) (record {
  keyed = w.keyed;
  entries = w.entries;
  merchant_ids = w.merchant_ids;
  providers = w.providers;
  intents = w.intents;
})

after :
    {A : Type 0} {x : A × Repository} {a : A} {s : Repository}
    → x ≡ (a, s)
    → IsWellFormed s
    → IsWellFormed x.1
after e w = subst (λ y. IsWellFormed y.1) (sym e) w

unchanged : {r s : Repository} → s ≡ r → IsWellFormed r → IsWellFormed s
unchanged e w = subst IsWellFormed (sym e) w

-- Every call, whether it returns or throws, keeps the repository well formed, if the order that the
-- caller passes has the merchant order id of the stored order of its version, and the changed order
-- that it passes is the same order.
pub call-IsWellFormed :
    (c : Call) (r : Repository) → Respects c r → IsWellFormed r → IsWellFormed (run c r).1
call-IsWellFormed (creating i) r h w = elim (create-effect i r) [
  | inl e ↦ unchanged e w
  | inr (absent, e) ↦
      after e
        (create_writes-IsWellFormed r w i.order i.idempotency_key i.request_fingerprint absent)
]
call-IsWellFormed (saving o v m) r h w = elim (save-effect o v m r) [
  | inl e ↦ unchanged e w
  | inr (old, found, same, next, e) ↦ after e (
      store_claim-IsWellFormed _ (save_writes-IsWellFormed r w o old found)
        (claimed_provider_id m o) o
        (updated_order old o, get-set_self (key_of o) (updated_order old o) r.orders))
]
call-IsWellFormed (binding i) r h w = elim (bind-effect i r) [
  | inl e ↦ unchanged e w
  | inr (id, q, f, named, made, e) ↦
      let b = binding-Binds i named made in
      after e (
        put_stripe_payment_intent-IsWellFormed _
          (put_current-IsWellFormed r w i.current_order q f h (b.key, b.merchant_order_id)) id q
          (subst (Stored (put_order (key_of i.current_order) q r)) (sym b.key)
            (q, get-set_self (key_of i.current_order) q r.orders)))
]
call-IsWellFormed (recording i) r h w = elim (webhook-effect i r) [
  | inl e ↦ unchanged e w
  | inr (f, v, new, e) ↦
      after e (
        with_events _ refl (put_changed-IsWellFormed r w i.current_order i.changed_order f h.0 h.1))
]
call-IsWellFormed (applying i) r h w = elim (apply-effect i r) [
  | inl e ↦ unchanged e w
  | inr (f, v, e) ↦ after e (
      with_events _ refl (
        store_mapping-IsWellFormed _
          (put_current-IsWellFormed r w i.current_order i.changed_order f h.0 h.1)
          i.ensure_payment_intent_mapping i.event.stripe_payment_intent_id i.current_order
          (i.changed_order, get-set_self (key_of i.current_order) i.changed_order r.orders)))
]
call-IsWellFormed (ignoring i) r h w = elim (ignore-effect i r) [
  | inl e ↦ unchanged e w
  | inr ((old, found, same), e) ↦ after e (
      with_events _ refl (
        store_mapping-IsWellFormed r w i.ensure_payment_intent_mapping
          i.event.stripe_payment_intent_id i.current_order (old, found)))
]
call-IsWellFormed (reconciling i) r h w = elim (reconcile-effect i r) [
  | inl e ↦ unchanged e w
  | inr e ↦ after e (with_events _ refl w)
]
