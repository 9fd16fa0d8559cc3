-- ===== src/App/ProviderWebhook/Decided.antt =====
-- `changedOrder` (src/application/process-provider-webhook.ts) always decides on an event of an order
-- that the provider has accepted.
use serverless_order_integra.Base.{
  String, str_lt, ◌≡◌, refl, inl, inr, true, false, Option, none, some, ok, err, Bool-cases,
  NotAfter, NotAfter-trans,
}
use serverless_order_integra.Domain.Status.{OrderStatus, status_eq, status_eq_iff}
use serverless_order_integra.Domain.Order.{Order, OrderPayment}
use serverless_order_integra.Domain.Transition.{
  OrderStatusChange, allowed_transition, apply_order_status_change,
}
use serverless_order_integra.Domain.Transition.Permits.{
  Edge, Edge-of_allowed, ExplainedAs, PaidFor, ProviderKnown, SameProviderId, Known, Permits,
}
use serverless_order_integra.Domain.Transition.Decides.{apply_of_Permits, apply_same_iff}
use serverless_order_integra.Domain.Errors.{invalid_order_status_transition}
use serverless_order_integra.Domain.Lifecycle.{IsSound, is_accepted, is_before_acceptance}
use serverless_order_integra.App.ProviderWebhook.{
  ProviderWebhookEvent, target_status, to_status_change, changed_order_for,
}

-- An order that a provider's event can find: sound, with the provider's id, and not changed before
-- it was created.
pub record IsWithProvider (o : Order) : Type 0 where
  pub sound : IsSound o
  pub known : Known o.provider.delivery_provider_order_id
  pub in_time : NotAfter o.created_at o.updated_at

leaving_accepted :
    {a b : OrderStatus} → Edge a b → is_before_acceptance a ≡ false → is_accepted a ≡ true
leaving_accepted Edge.pick_up h = refl
leaving_accepted Edge.deliver_directly h = refl
leaving_accepted Edge.fail_directly h = refl
leaving_accepted Edge.recall h = refl
leaving_accepted Edge.deliver h = refl
leaving_accepted Edge.fail_delivery h = refl
leaving_accepted _ h = cc

accepted-PaidFor :
    {a b : OrderStatus} (payment : Option OrderPayment)
    → Edge a b
    → is_before_acceptance a ≡ false
    → PaidFor a b payment
accepted-PaidFor payment Edge.pay h = cc
accepted-PaidFor payment Edge.abandon h = cc
accepted-PaidFor payment _ h = tt

accepted-ProviderKnown :
    {a b : OrderStatus} (o : Order) (c : OrderStatusChange)
    → Edge a b
    → is_before_acceptance a ≡ false
    → Known o.provider.delivery_provider_order_id × Known o.provider.accepted_at
    → ProviderKnown b o c
accepted-ProviderKnown o c Edge.submit h k = cc
accepted-ProviderKnown o c Edge.pick_up h k = k
accepted-ProviderKnown o c Edge.deliver_directly h k = k
accepted-ProviderKnown o c Edge.fail_directly h k = k
accepted-ProviderKnown o c Edge.deliver h k = k
accepted-ProviderKnown o c Edge.fail_delivery h k = k
accepted-ProviderKnown o c _ h k = tt

not_before_acceptance : (o : Order) → IsWithProvider o → is_before_acceptance o.status ≡ false
not_before_acceptance o w = elim (Bool-cases (is_before_acceptance o.status)) [
  | inr n ↦ n
  | inl y ↦ let (s, k) = w.known in let (e, _) = w.sound.unaccepted y in cc
]

no_id-SameProviderId : (t : OrderStatus) (old : Option String) → SameProviderId t none old
no_id-SameProviderId t none = inl refl
no_id-SameProviderId t (some s) = inl refl

no_edge_refused :
    (o : Order) (c : OrderStatusChange) (at : String)
    → status_eq c.target_status o.status ≡ false
    → allowed_transition o.status c.target_status ≡ false
    → apply_order_status_change o c at
      ≡ err (invalid_order_status_transition o.status c.target_status)
unfolding apply_order_status_change
no_edge_refused o c at d f = rw (d, f)

module _ (event : ProviderWebhookEvent) (o : Order) where
  event-Permits :
      IsWithProvider o
      → ExplainedAs (target_status event.event_type) event.failure
      → NotAfter o.updated_at event.occurred_at
      → Edge o.status (target_status event.event_type)
      → Permits o (to_status_change event) event.occurred_at
  unfolding to_status_change
  event-Permits w x t e =
      let n = not_before_acceptance o w in
      record {
        edge = e;
        in_time = NotAfter-trans o.created_at o.updated_at event.occurred_at w.in_time t;
        explained = x;
        paid = accepted-PaidFor o.payment e n;
        same_id = no_id-SameProviderId _ _;
        known = accepted-ProviderKnown o _ e n (w.sound.accepted (leaving_accepted e n));
      }

  -- An event with the details that its status asks for is never an error for such an order.
  pub changed_order_for-ok :
      IsWithProvider o
      → ExplainedAs (target_status event.event_type) event.failure
      → (x : Option Order) × (changed_order_for event o ≡ ok x)
  unfolding changed_order_for to_status_change
  changed_order_for-ok w x = elim (Bool-cases (str_lt event.occurred_at o.updated_at)) [
    | inl y ↦ (none, rw y)
    | inr n ↦ elim (Bool-cases (status_eq (target_status event.event_type) o.status)) [
      | inl y ↦ (
        none,
        rw (
          n,
          (apply_same_iff o (to_status_change event) event.occurred_at).1
              ((status_eq_iff (target_status event.event_type) o.status).0 y),
        ),
      )
      | inr d ↦ elim (Bool-cases (allowed_transition o.status (target_status event.event_type))) [
        | inr f ↦ (none, rw (n, no_edge_refused o (to_status_change event) event.occurred_at d f))
        | inl a ↦
            let (q, e) =
              apply_of_Permits o (to_status_change event) event.occurred_at
                (event-Permits w x n (Edge-of_allowed _ _ a)) in
            (some q, rw (n, e))
      ]
    ]
  ]
