-- ===== src/App/Validation/ChangeStatus/Operator.antt =====
-- What holds of every change that passes `validateChangeOrderStatusRequest`.
use serverless_order_integra.Base.{
  String, ◌≡◌, ◌≢◌, ◌↔◌, refl, sym, subst, Bool, true, false, not, Option, none, some, is_some, [],
  arith,
}
use serverless_order_integra.Domain.Status.{
  OrderStatus, awaiting_payment, submission_failed, delivery_failed,
}
use serverless_order_integra.Domain.Order.{FailureDetails}
use serverless_order_integra.Json.{Value, Fields, lookup, as_record}
use serverless_order_integra.App.ChangeStatus.{ChangeOrderStatusRequest}
use serverless_order_integra.App.Validation.{valid, no_issues_joined, Checked, note_if}
use serverless_order_integra.App.Validation.Reads.{HasLength, text_is_fine, valid_result}
use serverless_order_integra.App.Validation.Failure.{read_failure_fields, read_optional}
use serverless_order_integra.App.Validation.Failure.Reads.{failure_is_fine}
use serverless_order_integra.App.Validation.ChangeStatus.{
  operator_target, any_stage, check_failure_given, change_of, read_change, validate_change_fields,
  validate_change_order_status_request,
}

-- A change that an operator may ask for.
pub record IsOperatorChange (r : ChangeOrderStatusRequest) : Type 0 where
  pub not_awaiting : r.target_status ≢ awaiting_payment
  pub not_failed_submission : r.target_status ≢ submission_failed
  pub reason : HasLength 3 500 r.reason
  pub failure : (is_some r.failure ≡ true) ↔ (r.target_status ≡ delivery_failed)

target_is_operator :
    (v : Option Value) (t : OrderStatus)
    → operator_target v ≡ some t
    → (t ≢ awaiting_payment) × (t ≢ submission_failed)
unfolding operator_target
target_is_operator v t h = ground arith

target_is_fine :
    (o : Option OrderStatus) (p d : String)
    → (note_if (not (is_some o)) p d).1 ≡ []
    → (t : OrderStatus) × (o ≡ some t)
target_is_fine none p d h = cc
target_is_fine (some t) p d h = (t, refl)

-- Details are read exactly when they are given, once no issue is noted.
optional_is_given :
    {A : Type 0} (o : Option Value) (read : Option Value → Checked (Option A))
    → ((v : Option Value) → (read v).1 ≡ [] → is_some (read v).0 ≡ true)
    → (read_optional o read).1 ≡ []
    → is_some (read_optional o read).0 ≡ is_some o
optional_is_given none read f h = refl
optional_is_given (some v) read f h = f (some v) h

given_for_failure :
    (o : Option OrderStatus) (t : OrderStatus) (given : Bool)
    → o ≡ some t
    → (check_failure_given o given).1 ≡ []
    → (given ≡ true) ↔ (t ≡ delivery_failed)
unfolding check_failure_given
given_for_failure none t given e h = cc
given_for_failure (some delivery_failed) t true e h = ground arith
given_for_failure (some delivery_failed) t false e h = cc
given_for_failure (some x) t true e h = ground arith
given_for_failure (some x) t false e h = ground arith

module _ (to_iso : String → Option String) where
  details_are_read :
      (v : Option Value)
      → (read_failure_fields to_iso any_stage "must be SUBMISSION or DELIVERY" (as_record v)).1 ≡ []
      → is_some
          (read_failure_fields to_iso any_stage "must be SUBMISSION or DELIVERY" (as_record v)).0
        ≡ true
  details_are_read v h =
      let (f, _, e, _, _, _, _) =
        failure_is_fine to_iso any_stage "must be SUBMISSION or DELIVERY" (as_record v) h in
      rw (e)

  change_is_given :
      {a : Option OrderStatus} {b id : Option String} {failure : Option FailureDetails}
      {t : OrderStatus} {reason : String}
      → a ≡ some t
      → b ≡ some reason
      → change_of a b id failure
        ≡ some (record {
          target_status = t;
          reason = reason;
          delivery_provider_order_id = id;
          failure = failure;
        })
  change_is_given e f = rw (e, f)

  change_is_fine :
      (fields : Fields)
      → (read_change to_iso fields).1 ≡ []
      → (r : ChangeOrderStatusRequest) × ((read_change to_iso fields).0 ≡ some r)
        × IsOperatorChange r
  unfolding read_change
  change_is_fine fields h =
      let (_, g) = no_issues_joined _ _ h in
      let (a, g) = no_issues_joined _ _ g in
      let (b, g) = no_issues_joined _ _ g in
      let (c, g) = no_issues_joined _ _ g in
      let (d, g) = no_issues_joined _ _ g in
      let (e, _) = no_issues_joined _ _ g in
      let target = operator_target (lookup "targetStatus" fields) in
      let (t, ea) =
        target_is_fine target "#/targetStatus" "must be an operator-controlled status" a in
      let (reason, eb, lb, _) = text_is_fine _ _ _ _ _ b in
      let (x, y) = target_is_operator _ t ea in
      let given = optional_is_given (lookup "failure" fields) _ details_are_read d in
      (
        record { target_status = t; reason = reason; delivery_provider_order_id = _; failure = _ },
        change_is_given ea eb,
        record {
          not_awaiting = x;
          not_failed_submission = y;
          reason = lb;
          failure =
              subst (λ g. (g ≡ true) ↔ (t ≡ delivery_failed)) (sym given)
                (given_for_failure target t (is_some (lookup "failure" fields)) ea e);
        },
      )

  fields_are_fine :
      (fields : Option Fields) (r : ChangeOrderStatusRequest)
      → validate_change_fields to_iso fields ≡ valid r
      → IsOperatorChange r
  unfolding validate_change_fields
  fields_are_fine none r h = cc
  fields_are_fine (some fields) r h =
      let (i, e) = valid_result _ _ r h in
      let (q, f, a) = change_is_fine fields i in subst IsOperatorChange (cc) a

  -- A change of status that passes the validation is one that an operator may ask for: its target is
  -- neither AWAITING_PAYMENT nor SUBMISSION_FAILED, its reason has 3 to 500 units, and it brings
  -- failure details exactly when its target is DELIVERY_FAILED.
  pub validated_change-IsOperatorChange :
      (body : Value) (r : ChangeOrderStatusRequest)
      → validate_change_order_status_request to_iso body ≡ valid r
      → IsOperatorChange r
  validated_change-IsOperatorChange body r h = fields_are_fine (as_record (some body)) r h
