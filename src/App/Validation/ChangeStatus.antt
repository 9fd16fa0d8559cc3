-- ===== src/App/Validation/ChangeStatus.antt =====
-- `validateChangeOrderStatusRequest` (src/application/change-order-status-validation.ts).
pub mod Operator
use serverless_order_integra.Base.{
  String, str_eq, Bool, true, false, not, ◌&&◌, Option, none, some, List, [], ◌∷◌, is_some,
  if◌then◌else◌,
}
use serverless_order_integra.Domain.Status.{
  OrderStatus, pending_submission, submitted, picked_up, delivered, delivery_failed, cancelled,
}
use serverless_order_integra.Domain.Order.{FailureStage, submission, delivery, FailureDetails}
use serverless_order_integra.Json.{Value, str, Fields, lookup, as_record, is_text}
use serverless_order_integra.App.ChangeStatus.{ChangeOrderStatusRequest}
use serverless_order_integra.App.Validation.{
  ValidationResult, invalid, Checked, pure, ◌>>=◌, ◌>>◌, issue, note_if, add_unknown_field_issues,
  any_text, read_string, result_of,
}
use serverless_order_integra.App.Validation.Failure.{read_failure_fields, read_optional}

abbrev change_names : List String
change_names = "targetStatus" ∷ "reason" ∷ "deliveryProviderOrderId" ∷ "failure" ∷ []

-- `OPERATOR_TARGET_STATUSES.find(...)`
unfoldable pub operator_target : Option Value → Option OrderStatus
operator_target value =
    if is_text value "PENDING_SUBMISSION"
    then some pending_submission
    else if is_text value "SUBMITTED"
    then some submitted
    else if is_text value "PICKED_UP"
    then some picked_up
    else if is_text value "DELIVERED"
    then some delivered
    else if is_text value "DELIVERY_FAILED"
    then some delivery_failed
    else if is_text value "CANCELLED"
    then some cancelled
    else none

unfoldable pub any_stage : Option Value → Option FailureStage
any_stage value =
    if is_text value "SUBMISSION"
    then some submission
    else if is_text value "DELIVERY"
    then some delivery
    else none

-- Failure details are given for DELIVERY_FAILED, and for no other status.
unfoldable pub check_failure_given : Option OrderStatus → Bool → Checked (Unit {0})
check_failure_given (some delivery_failed) given =
    note_if (not given) "#/failure" "is required for DELIVERY_FAILED"
check_failure_given (some status) given =
    note_if given "#/failure" "is only allowed for DELIVERY_FAILED"
check_failure_given none given = pure tt

abbrev pub change_of :
    Option OrderStatus
    → Option String
    → Option String
    → Option FailureDetails
    → Option ChangeOrderStatusRequest
change_of (some target) (some reason) id failure = some (record {
  target_status = target;
  reason = reason;
  delivery_provider_order_id = id;
  failure = failure;
})
change_of _ _ id failure = none

-- `to_iso` normalizes a date-time.
module _ (to_iso : String → Option String) where
  unfoldable pub read_change : Fields → Checked (Option ChangeOrderStatusRequest)
  read_change value = do
    add_unknown_field_issues value change_names "#"
    note_if (not (is_some (operator_target (lookup "targetStatus" value)))) "#/targetStatus"
        "must be an operator-controlled status"
    reason ← read_string (lookup "reason" value) "#/reason" 3 500 any_text
    id ←
        read_optional (lookup "deliveryProviderOrderId" value)
          λ v. read_string v "#/deliveryProviderOrderId" 1 128 any_text
    failure ←
        read_optional (lookup "failure" value)
          λ v. read_failure_fields to_iso any_stage "must be SUBMISSION or DELIVERY" (as_record v)
    check_failure_given (operator_target (lookup "targetStatus" value))
        (is_some (lookup "failure" value))
    pure (change_of (operator_target (lookup "targetStatus" value)) reason id failure)

  unfoldable pub validate_change_fields : Option Fields → ValidationResult ChangeOrderStatusRequest
  validate_change_fields none = invalid (issue "#" "must be an object")
  validate_change_fields (some fields) = result_of (read_change fields).0 (read_change fields).1

  abbrev pub validate_change_order_status_request :
      Value → ValidationResult ChangeOrderStatusRequest
  validate_change_order_status_request value = validate_change_fields (as_record (some value))
