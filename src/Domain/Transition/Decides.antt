-- ===== src/Domain/Transition/Decides.antt =====
-- `applyOrderStatusChange` accepts a change exactly when the rules permit it, and then does what
-- they say.
use serverless_order_integra.Base.{
  String, ◌≡◌, refl, ◌≢◌, ◌↔◌, ◌⊎◌, inl, inr, true, false, Option, none, some, ok, err, same, fresh,
  NotAfter, arith, eq_iff, or_else, or_default,
}
use serverless_order_integra.Domain.Status.{
  OrderStatus, awaiting_payment, pending_submission, submission_failed, submitted, status_eq,
  status_eq_iff, is_terminal_order_status,
}
use serverless_order_integra.Domain.Errors.{invalid_order_status_transition}
use serverless_order_integra.Domain.Order.{FailureDetails, DeliveryProviderAssignment, Order}
use serverless_order_integra.Domain.Transition.{
  allowed_transition, OrderStatusChange, failure_for, validate_failure, validate_payment_gate,
  check_provider_order_id, provider_for_change, changed_order, apply_order_status_change,
}
use serverless_order_integra.Domain.Transition.Permits.{
  Edge, Edge-of_allowed, allowed_of_Edge, ExplainedAs, PaidFor, SameProviderId, Known,
  ProviderKnown, Permits, Follows,
}

failure_for-ExplainedAs :
    (t : OrderStatus) (f : Option FailureDetails) → failure_for t f ≡ ok tt → ExplainedAs t f
failure_for-ExplainedAs submission_failed f h = ground arith
failure_for-ExplainedAs _ f h = ground arith

failure_for_of_ExplainedAs :
    (t : OrderStatus) (f : Option FailureDetails) → ExplainedAs t f → failure_for t f ≡ ok tt
failure_for_of_ExplainedAs submission_failed f h = ground arith
failure_for_of_ExplainedAs _ f h = ground arith

gate-PaidFor :
    (o : Order) (c : OrderStatusChange) (s t : OrderStatus)
    → o.status ≡ s
    → c.target_status ≡ t
    → validate_payment_gate o c ≡ ok tt
    → PaidFor s t o.payment
unfolding validate_payment_gate status_eq
gate-PaidFor o c awaiting_payment pending_submission es et h = ground arith
gate-PaidFor o c _ _ es et h = ground arith

gate_of_PaidFor :
    (o : Order) (c : OrderStatusChange) (s t : OrderStatus)
    → o.status ≡ s
    → c.target_status ≡ t
    → PaidFor s t o.payment
    → validate_payment_gate o c ≡ ok tt
unfolding validate_payment_gate status_eq
gate_of_PaidFor o c awaiting_payment pending_submission es et h = ground arith
gate_of_PaidFor o c _ _ es et h = ground arith

check-SameProviderId :
    (given old : Option String) (t : OrderStatus)
    → check_provider_order_id given old t ≡ ok tt
    → SameProviderId t given old
check-SameProviderId none none t h = ground arith
check-SameProviderId none (some b) t h = ground arith
check-SameProviderId (some a) none t h = ground (arith, status_eq_iff t submitted)
check-SameProviderId (some a) (some b) t h = ground (arith, eq_iff a b)

check_of_SameProviderId :
    (given old : Option String) (t : OrderStatus)
    → SameProviderId t given old
    → check_provider_order_id given old t ≡ ok tt
check_of_SameProviderId none old t h = ground arith
check_of_SameProviderId (some a) none t h = ground (arith, status_eq_iff t submitted)
check_of_SameProviderId (some a) (some b) t h = ground (arith, eq_iff a b)

provider-check :
    (o : Order) (c : OrderStatusChange) (at : String) {p : DeliveryProviderAssignment}
    → provider_for_change o c at ≡ ok p
    → check_provider_order_id c.delivery_provider_order_id o.provider.delivery_provider_order_id
        c.target_status
      ≡ ok tt
unfolding provider_for_change
provider-check o c at h = ground arith

provider-ProviderKnown :
    (o : Order) (c : OrderStatusChange) (at : String) (t : OrderStatus)
    {p : DeliveryProviderAssignment}
    → c.target_status ≡ t
    → provider_for_change o c at ≡ ok p
    → ProviderKnown t o c
unfolding provider_for_change
provider-ProviderKnown o c at submitted et h = ground arith
provider-ProviderKnown o c at _ et h = ground arith

or_else-Known : (a b : Option String) → Known a ⊎ Known b → (s : String) × (or_else a b ≡ some s)
or_else-Known none b (inl (s, e)) = cc
or_else-Known none b (inr k) = k
or_else-Known (some s) b k = (s, refl)

provider_of_rules :
    (o : Order) (c : OrderStatusChange) (at : String) (t : OrderStatus)
    → c.target_status ≡ t
    → SameProviderId t c.delivery_provider_order_id o.provider.delivery_provider_order_id
    → ProviderKnown t o c
    → (p : DeliveryProviderAssignment) × (provider_for_change o c at ≡ ok p)
unfolding provider_for_change
provider_of_rules o c at submitted et i k =
    let (id, e) = or_else-Known _ _ k in
    (
      record o.provider {
        delivery_provider_order_id = some id;
        accepted_at = some (or_default (or_else o.provider.accepted_at c.accepted_at) at);
      },
      ground (
        arith,
        e,
        check_of_SameProviderId c.delivery_provider_order_id o.provider.delivery_provider_order_id
            submitted i,
      ),
    )
provider_of_rules o c at t et i k = (
  o.provider,
  ground (
    arith,
    check_of_SameProviderId c.delivery_provider_order_id o.provider.delivery_provider_order_id t i,
  ),
)

provider_keeps_key :
    (o : Order) (c : OrderStatusChange) (at : String) {p : DeliveryProviderAssignment}
    → provider_for_change o c at ≡ ok p
    → p.delivery_provider_submission_key ≡ o.provider.delivery_provider_submission_key
unfolding provider_for_change
provider_keeps_key o c at h = ground arith

Edge-status_eq : {a b : OrderStatus} → Edge a b → status_eq b a ≡ false
unfolding status_eq
Edge-status_eq Edge.pay = refl
Edge-status_eq _ = refl

-- The tests of the function that an applied change has passed.
pub record Passed (o : Order) (c : OrderStatusChange) (at : String) (q : Order) : Type 0 where
  pub differs : status_eq c.target_status o.status ≡ false
  pub allowed : allowed_transition o.status c.target_status ≡ true
  pub in_time : NotAfter o.created_at at
  pub failure_ok : validate_failure c ≡ ok tt
  pub gate_ok : validate_payment_gate o c ≡ ok tt
  pub provider_ok : provider_for_change o c at ≡ ok q.provider
  pub result : q ≡ changed_order o c at q.provider

module _ (o : Order) (c : OrderStatusChange) (at : String) where
  pub apply-Passed : {q : Order} → apply_order_status_change o c at ≡ ok (fresh q) → Passed o c at q
  unfolding apply_order_status_change
  apply-Passed h = ground arith

  -- An applied change records what it is to record, and leaves the rest of the order alone.
  pub apply-Follows :
      {q : Order} → apply_order_status_change o c at ≡ ok (fresh q) → Follows o c at q
  apply-Follows h =
      let x = apply-Passed h in ground (arith, x.result, provider_keeps_key o c at x.provider_ok)

  pub apply-Permits : {q : Order} → apply_order_status_change o c at ≡ ok (fresh q) → Permits o c at
  unfolding validate_failure
  apply-Permits h =
      let x = apply-Passed h in
      record {
        edge = Edge-of_allowed _ _ x.allowed;
        in_time = x.in_time;
        explained = failure_for-ExplainedAs _ _ x.failure_ok;
        paid = gate-PaidFor o c _ _ refl refl x.gate_ok;
        same_id = check-SameProviderId _ _ _ (provider-check o c at x.provider_ok);
        known = provider-ProviderKnown o c at _ refl x.provider_ok;
      }

  pub apply_of_Permits :
      Permits o c at → (q : Order) × (apply_order_status_change o c at ≡ ok (fresh q))
  unfolding apply_order_status_change validate_failure
  apply_of_Permits r =
      let (p, accepted) = provider_of_rules o c at _ refl r.same_id r.known in
      (
        changed_order o c at p,
        ground (
          arith,
          accepted,
          r.in_time,
          allowed_of_Edge r.edge,
          Edge-status_eq r.edge,
          failure_for_of_ExplainedAs c.target_status c.failure r.explained,
          gate_of_PaidFor o c o.status c.target_status refl refl r.paid,
        ),
      )

  -- A change gives a new order exactly when the rules permit it: the edge is one of the life cycle,
  -- the time is not before the order's creation, the failure details are those the target status
  -- asks for, the payment is the one it asks for, the provider's id is the recorded one or, at
  -- submission, a first one, and what the target needs to know of the provider is known.
  pub apply_succeeds_iff :
      ((q : Order) × (apply_order_status_change o c at ≡ ok (fresh q))) ↔ Permits o c at
  apply_succeeds_iff = (λ s. apply-Permits s.1, apply_of_Permits)

  -- The order itself is given back exactly when the change asks for the status that it has.
  pub apply_same_iff : (apply_order_status_change o c at ≡ ok same) ↔ (c.target_status ≡ o.status)
  unfolding apply_order_status_change
  apply_same_iff = ground (arith, status_eq_iff c.target_status o.status)

  -- An order in a terminal status refuses every change to another status as an invalid transition
  -- between the two.
  pub terminal_order_refuses :
      is_terminal_order_status o.status ≡ true
      → c.target_status ≢ o.status
      → apply_order_status_change o c at
        ≡ err (invalid_order_status_transition o.status c.target_status)
  unfolding apply_order_status_change allowed_transition is_terminal_order_status
  terminal_order_refuses t n = ground (arith, status_eq_iff c.target_status o.status)
