-- ===== src/Domain/Status.antt =====
-- src/domain/order-status.ts and the payment statuses of src/domain/payment.ts.
use serverless_order_integra.Base.{
  ◌≡◌, ◌↔◌, refl, Bool, true, false, arith, String, str_eq, Option, none, some, if◌then◌else◌,
}

pub data OrderStatus : Type 0 where
  awaiting_payment pending_submission submission_failed submitted : OrderStatus
  picked_up delivered delivery_failed cancelled : OrderStatus

unfoldable pub is_terminal_order_status : OrderStatus → Bool
is_terminal_order_status delivered = true
is_terminal_order_status delivery_failed = true
is_terminal_order_status cancelled = true
is_terminal_order_status _ = false

-- `a === b` on statuses
unfoldable pub status_eq : OrderStatus → OrderStatus → Bool
status_eq awaiting_payment awaiting_payment = true
status_eq pending_submission pending_submission = true
status_eq submission_failed submission_failed = true
status_eq submitted submitted = true
status_eq picked_up picked_up = true
status_eq delivered delivered = true
status_eq delivery_failed delivery_failed = true
status_eq cancelled cancelled = true
status_eq _ _ = false

pub status_eq_iff : (a b : OrderStatus) → (status_eq a b ≡ true) ↔ (a ≡ b)
unfolding status_eq
status_eq_iff a b = ground arith

-- The literal of a status, and the status that a literal is.
abbrev pub status_text : OrderStatus → String
status_text awaiting_payment = "AWAITING_PAYMENT"
status_text pending_submission = "PENDING_SUBMISSION"
status_text submission_failed = "SUBMISSION_FAILED"
status_text submitted = "SUBMITTED"
status_text picked_up = "PICKED_UP"
status_text delivered = "DELIVERED"
status_text delivery_failed = "DELIVERY_FAILED"
status_text cancelled = "CANCELLED"

unfoldable pub read_status : String → Option OrderStatus
read_status s =
    if str_eq s "AWAITING_PAYMENT"
    then some awaiting_payment
    else if str_eq s "PENDING_SUBMISSION"
    then some pending_submission
    else if str_eq s "SUBMISSION_FAILED"
    then some submission_failed
    else if str_eq s "SUBMITTED"
    then some submitted
    else if str_eq s "PICKED_UP"
    then some picked_up
    else if str_eq s "DELIVERED"
    then some delivered
    else if str_eq s "DELIVERY_FAILED"
    then some delivery_failed
    else if str_eq s "CANCELLED"
    then some cancelled
    else none

pub read_status-text : (s : OrderStatus) → read_status (status_text s) ≡ some s
unfolding read_status
read_status-text awaiting_payment = refl
read_status-text _ = refl

pub data PaymentStatus : Type 0 where
  not_started requires_payment_method requires_confirmation requires_action : PaymentStatus
  processing succeeded payment_cancelled : PaymentStatus

unfoldable pub is_terminal_payment_status : PaymentStatus → Bool
is_terminal_payment_status succeeded = true
is_terminal_payment_status payment_cancelled = true
is_terminal_payment_status _ = false

unfoldable pub payment_status_eq : PaymentStatus → PaymentStatus → Bool
payment_status_eq not_started not_started = true
payment_status_eq requires_payment_method requires_payment_method = true
payment_status_eq requires_confirmation requires_confirmation = true
payment_status_eq requires_action requires_action = true
payment_status_eq processing processing = true
payment_status_eq succeeded succeeded = true
payment_status_eq payment_cancelled payment_cancelled = true
payment_status_eq _ _ = false

pub payment_status_eq_iff : (a b : PaymentStatus) → (payment_status_eq a b ≡ true) ↔ (a ≡ b)
unfolding payment_status_eq
payment_status_eq_iff a b = ground arith

abbrev pub payment_status_text : PaymentStatus → String
payment_status_text not_started = "NOT_STARTED"
payment_status_text requires_payment_method = "REQUIRES_PAYMENT_METHOD"
payment_status_text requires_confirmation = "REQUIRES_CONFIRMATION"
payment_status_text requires_action = "REQUIRES_ACTION"
payment_status_text processing = "PROCESSING"
payment_status_text succeeded = "SUCCEEDED"
payment_status_text payment_cancelled = "CANCELLED"
