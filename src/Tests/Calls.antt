-- ===== src/Tests/Calls.antt =====
-- The results on the repository, at calls on a few orders.
use serverless_order_integra.Base.{
  ◌≡◌, refl, false, none, some, ok, err, get, set, key_equality, string_equality, str_length,
}
use serverless_order_integra.Domain.Status.{
  awaiting_payment, not_started, processing, status_eq, payment_status_eq,
}
use serverless_order_integra.Domain.Order.{Order, OrderPayment}
use serverless_order_integra.Domain.Errors.{
  idempotency_conflict, order_version_conflict, provider_event_id_conflict,
}
use serverless_order_integra.Repository.Contract.{
  CreateOrderInput, created, assert_next_order_version, BindStripePaymentIntentInput, bound,
  RecordProviderWebhookInput, RecordResult, recorded, stripe_payment_intent_id_from_binding,
  order_from_payment_binding, resolve_payment_binding_order, RecordIgnoredStripeWebhookInput,
}
use serverless_order_integra.Repository.State.{Repository, tuple_key, empty_repository}
use serverless_order_integra.Repository.Orders.{
  create, get_order, bind_stripe_payment_intent, get_by_stripe_payment_intent_id,
}
use serverless_order_integra.Repository.Saving.{
  save_status_change, record_provider_webhook, write_changed,
}
use serverless_order_integra.Repository.Stripe.{
  record_ignored_stripe_webhook, stripe_event_duplicate, stripe_current_order,
  assert_stripe_payment_intent_mapping,
}
use serverless_order_integra.Repository.WellFormed.{IsWellFormed, empty-IsWellFormed}
use serverless_order_integra.Repository.Calls.{
  creating, saving, binding, run, failed_call_changes_nothing,
}
use serverless_order_integra.Repository.Advances.{Advances, call-Advances}
use serverless_order_integra.Repository.Preserves.{Snapshot, call-IsWellFormed}
use serverless_order_integra.Repository.Idempotency.{
  create-create_same_key, get-create, save-save_stale, webhook-webhook_same_event,
}
use serverless_order_integra.Repository.Payments.{
  StripeCall, record_stripe_event, record-record_same_stripe_event,
}
use serverless_order_integra.Repository.Binding.{get_by_intent-bind}
use serverless_order_integra.Tests.Samples.{
  ten, eleven, unstarted, new_order, pending_order, first_input, traced_from,
}

-- The repository with one order.
abbrev one : Repository
one = (create first_input empty_repository).1

creating_first : create first_input empty_repository ≡ (ok (created new_order), one)
unfolding create get
creating_first = refl

one-IsWellFormed : IsWellFormed one
one-IsWellFormed = call-IsWellFormed (creating first_input) empty_repository tt empty-IsWellFormed

call-Advances_example :
    Advances one (run (saving pending_order 1 (traced_from awaiting_payment)) one).1
call-Advances_example = call-Advances (saving pending_order 1 (traced_from awaiting_payment)) one

failed_call_changes_nothing_example :
    (run (saving pending_order 7 (traced_from awaiting_payment)) one).1 ≡ one
unfolding save_status_change assert_next_order_version
failed_call_changes_nothing_example =
    failed_call_changes_nothing (saving pending_order 7 (traced_from awaiting_payment)) one refl

abbrev other_request : CreateOrderInput
other_request = record first_input { request_fingerprint = "print-2" }

create-create_same_key_example : create other_request one ≡ (err idempotency_conflict, one)
create-create_same_key_example =
    create-create_same_key first_input other_request empty_repository one creating_first refl refl

abbrev other_key : CreateOrderInput
other_key = record first_input {
  idempotency_key = "key-2";
  order = record new_order { order_id = "order-2" };
}

no_second_entry : get (tuple_key "merchant-1" "key-2") one.idempotency_entries ≡ none
unfolding create get set
no_second_entry = refl

reading : get_order "merchant-1" "order-1" one ≡ (ok (some new_order), one)
reading = get-create first_input first_input empty_repository one creating_first

-- The repository after the order is paid.
abbrev two : Repository
two = (save_status_change pending_order 1 (traced_from awaiting_payment) one).1

saving_pending :
    save_status_change pending_order 1 (traced_from awaiting_payment) one ≡ (ok tt, two)
unfolding save_status_change assert_next_order_version create get set status_eq
saving_pending = refl

save-save_stale_example :
    save_status_change pending_order 1 (traced_from awaiting_payment) two
    ≡ (err (order_version_conflict 2), two)
save-save_stale_example =
    save-save_stale pending_order pending_order 1 (traced_from awaiting_payment)
      (traced_from awaiting_payment) one two saving_pending refl refl

-- A provider event that changes nothing.
abbrev late_event : RecordProviderWebhookInput
late_event = record {
  event_id = "event-1";
  event_fingerprint = "print-1";
  delivery_provider_order_id = "delivery-1";
  processed_at = eleven;
  current_order = new_order;
  changed_order = none;
  mutation = none;
}

abbrev with_event : Repository
with_event = (record_provider_webhook late_event one).1

recording_event : record_provider_webhook late_event one ≡ (ok recorded, with_event)
unfolding record_provider_webhook write_changed create get set
recording_event = refl

webhook-webhook_same_event_example :
    record_provider_webhook (record late_event { event_fingerprint = "print-2" }) with_event
    ≡ (err provider_event_id_conflict, with_event)
webhook-webhook_same_event_example =
    webhook-webhook_same_event late_event (record late_event { event_fingerprint = "print-2" }) one
      with_event recording_event refl

-- The binding of a payment intent.
abbrev started_payment : OrderPayment
started_payment = record unstarted {
  status = processing;
  stripe_payment_intent_id = some "pi_1";
  updated_at = ten;
}

abbrev bound_order : Order
bound_order = record new_order { payment = some started_payment; updated_at = ten; version = 2 }

abbrev binding_input : BindStripePaymentIntentInput
binding_input = record {
  current_order = new_order;
  changed_order = bound_order;
  mutation = record {
    correlation_id = "correlation-1";
    causation_id = "request-2";
    previous_payment_status = not_started;
  };
}

abbrev with_intent : Repository
with_intent = (bind_stripe_payment_intent binding_input one).1

binding_intent :
    bind_stripe_payment_intent binding_input one ≡ (ok (bound bound_order), with_intent)
unfolding bind_stripe_payment_intent stripe_payment_intent_id_from_binding
    order_from_payment_binding resolve_payment_binding_order assert_next_order_version status_eq
    payment_status_eq str_length create get set
binding_intent = refl

get_by_intent-bind_example :
    get_by_stripe_payment_intent_id "pi_1" with_intent ≡ (ok (some bound_order), with_intent)
get_by_intent-bind_example = get_by_intent-bind binding_input one with_intent binding_intent refl

-- A Stripe event that changes nothing.
abbrev ignored_event : RecordIgnoredStripeWebhookInput
ignored_event = record {
  event = record {
    event_id = "evt_1";
    event_type = "payment_intent.processing";
    event_fingerprint = "print-1";
    stripe_payment_intent_id = "pi_1";
    processed_at = eleven;
  };
  current_order = bound_order;
  ensure_payment_intent_mapping = false;
}

abbrev with_stripe_event : Repository
with_stripe_event = (record_ignored_stripe_webhook ignored_event with_intent).1

ignoring_event :
    record_stripe_event (StripeCall.ignoring ignored_event) with_intent
    ≡ (ok recorded, with_stripe_event)
unfolding record_ignored_stripe_webhook stripe_event_duplicate stripe_current_order
    assert_stripe_payment_intent_mapping bind_stripe_payment_intent
    stripe_payment_intent_id_from_binding order_from_payment_binding resolve_payment_binding_order
    assert_next_order_version status_eq payment_status_eq str_length create get set
ignoring_event = refl

record-record_same_stripe_event_example :
    record_stripe_event (StripeCall.ignoring ignored_event) with_stripe_event
    ≡ (ok RecordResult.duplicate, with_stripe_event)
record-record_same_stripe_event_example =
    record-record_same_stripe_event (StripeCall.ignoring ignored_event)
      (StripeCall.ignoring ignored_event) with_intent with_stripe_event ignoring_event refl

new_order-Snapshot : Snapshot one new_order
unfolding create get set
new_order-Snapshot = λ old h v. cc

call-IsWellFormed_example : IsWellFormed (run (binding binding_input) one).1
call-IsWellFormed_example =
    call-IsWellFormed (binding binding_input) one new_order-Snapshot one-IsWellFormed
