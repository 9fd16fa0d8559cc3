-- ===== src/Tests/Stream.antt =====
-- The results on the stream of stored orders and its consumers, at concrete records.
use serverless_order_integra.Base.{
  Result, String, ◌≡◌, refl, none, some, List, [], ◌∷◌, ok, fresh, ◌⊎◌, str_length, str_lt,
}
use serverless_order_integra.Base.Exec.{Exec}
use serverless_order_integra.Domain.Status.{
  awaiting_payment, pending_submission, cancelled, payment_cancelled, status_eq, payment_status_eq,
}
use serverless_order_integra.Domain.Errors.{AppError, AppError}
use serverless_order_integra.Domain.Order.{Order}
use serverless_order_integra.Domain.Transition.{
  apply_order_status_change, allowed_transition, validate_failure, validate_payment_gate,
  provider_for_change,
}
use serverless_order_integra.Domain.Lifecycle.{IsSound}
use serverless_order_integra.Repository.Contract.{OrderStatusChangedMutation}
use serverless_order_integra.Json.{Fields}
use serverless_order_integra.Events.{DomainEvent, order_ready_for_submission}
use serverless_order_integra.Events.Stream.{DynamoDbRecord}
use serverless_order_integra.Events.StatusChanged.{domain_event_from_order_stream_record}
use serverless_order_integra.Events.Stored.{OrderMutation, to_stored_order}
use serverless_order_integra.Events.Stored.Reads.{IsReadable, IsTraced, streamed, stream_mutation}
use serverless_order_integra.Events.Announces.{event_for, Announces, HasNames}
use serverless_order_integra.Events.Publishes.{Holds, status_change_is_announced}
use serverless_order_integra.Lambda.StreamPublisher.{sequence_number, stream_publisher_handler}
use serverless_order_integra.Lambda.StreamPublisher.Stops.{
  publisher_stops_at_first_failure, Handled, StoppedAt,
}
use serverless_order_integra.Lambda.StreamPublisher.Blocks.{unpaid_cancellation_blocks_stream}
use serverless_order_integra.Tests.Samples.{
  ten, new_order, paid, pending_order, change_to, traced_from, unstarted,
}

-- The image is the item itself, the digest a constant; a published event is put in front.
abbrev as_is : Fields → Result AppError Fields
as_is fields = ok fields

abbrev digest : String → String
digest text = "0123456789abcdefghij"

abbrev publish : DomainEvent → Exec (List DomainEvent) AppError (Unit {0})
publish event sent = (ok tt, event ∷ sent)

abbrev modified : Order → OrderStatusChangedMutation → DynamoDbRecord Fields
modified order mutation = record {
  event_name = some "MODIFY";
  event_source_arn = some "arn:stream";
  event_id = some "record-1";
  new_image = some (to_stored_order order (OrderMutation.status_changed mutation));
  sequence_number = some "100";
}

modified-Holds :
    (order : Order) (mutation : OrderStatusChangedMutation)
    → Holds as_is
        (modified order mutation)
        (to_stored_order order (OrderMutation.status_changed mutation))
unfolding str_length
modified-Holds order mutation = record {
  modify = refl;
  image = to_stored_order order (OrderMutation.status_changed mutation);
  image_given = refl;
  stored = refl;
  ids = record {
    arn = "arn:stream";
    arn_given = (refl, refl);
    id = "record-1";
    id_given = (refl, refl);
  };
}

abbrev paid_order : Order
paid_order = record new_order { payment = some paid }

paid_order-IsSound : IsSound paid_order
paid_order-IsSound = record {
  paid = λ h. cc;
  accepted = λ h. cc;
  unaccepted = λ h. (refl, refl);
  explained = refl;
}

pending_order-IsReadable : IsReadable pending_order
unfolding str_length
pending_order-IsReadable = record {
  order_id = refl;
  merchant_id = refl;
  updated_at = refl;
  submission_key = refl;
  version = refl;
}

no_names :
    (q : Order)
    → q.provider.delivery_provider_order_id ≡ none
    → q.provider.accepted_at ≡ none
    → HasNames q
no_names q h k = record { id = λ s e. cc; at = λ s e. cc }

sample_mutation_ok : IsTraced (traced_from awaiting_payment)
unfolding str_length
sample_mutation_ok = record { correlation = refl; causation = refl }

releasing_paid :
    apply_order_status_change paid_order (change_to pending_submission) ten
    ≡ ok (fresh pending_order)
unfolding apply_order_status_change status_eq allowed_transition validate_failure
    validate_payment_gate provider_for_change str_lt payment_status_eq
releasing_paid = refl

status_change_is_announced_example :
    Announces
      (record {
        order = streamed pending_order;
        mutation = stream_mutation (traced_from awaiting_payment);
      })
      (some order_ready_for_submission)
      (domain_event_from_order_stream_record as_is digest
        (modified pending_order (traced_from awaiting_payment)))
unfolding event_for
status_change_is_announced_example =
    status_change_is_announced as_is digest (modified pending_order (traced_from awaiting_payment))
      pending_order (traced_from awaiting_payment) paid_order (change_to pending_submission) ten
      releasing_paid refl paid_order-IsSound pending_order-IsReadable
      (no_names pending_order refl refl) sample_mutation_ok
      (modified-Holds pending_order (traced_from awaiting_payment))

-- An order whose payment is cancelled, and its cancellation.
abbrev lapsed : Order
lapsed = record new_order { payment = some (record unstarted { status = payment_cancelled }) }

abbrev lapsed_cancelled : Order
lapsed_cancelled = record lapsed { status = cancelled; updated_at = ten; version = 2 }

lapsed-IsSound : IsSound lapsed
lapsed-IsSound = record {
  paid = λ h. cc;
  accepted = λ h. cc;
  unaccepted = λ h. (refl, refl);
  explained = refl;
}

lapsed_cancelled-IsReadable : IsReadable lapsed_cancelled
unfolding str_length
lapsed_cancelled-IsReadable = record {
  order_id = refl;
  merchant_id = refl;
  updated_at = refl;
  submission_key = refl;
  version = refl;
}

cancelling_lapsed :
    apply_order_status_change lapsed (change_to cancelled) ten ≡ ok (fresh lapsed_cancelled)
unfolding apply_order_status_change status_eq allowed_transition validate_failure
    validate_payment_gate provider_for_change str_lt payment_status_eq
cancelling_lapsed = refl

abbrev blocking : DynamoDbRecord Fields
blocking = modified lapsed_cancelled (traced_from awaiting_payment)

numbered : sequence_number blocking ≡ ok "100"
unfolding sequence_number str_length
numbered = refl

unpaid_cancellation_blocks_stream_example :
    stream_publisher_handler as_is digest publish
      (blocking ∷ modified pending_order (traced_from awaiting_payment) ∷ [])
      []
    ≡ (ok ("100" ∷ []), [])
unpaid_cancellation_blocks_stream_example =
    unpaid_cancellation_blocks_stream as_is digest publish lapsed lapsed_cancelled
      (change_to cancelled) ten (traced_from awaiting_payment) refl refl cancelling_lapsed refl
      lapsed-IsSound lapsed_cancelled-IsReadable (no_names lapsed_cancelled refl refl)
      sample_mutation_ok blocking (modified-Holds lapsed_cancelled (traced_from awaiting_payment))
      "100" numbered (modified pending_order (traced_from awaiting_payment) ∷ []) []

abbrev the_failure : List String
the_failure = "100" ∷ []

publisher_stops_at_first_failure_example :
    ((the_failure ≡ []) × Handled as_is digest publish [] (blocking ∷ []) [])
    ⊎ StoppedAt as_is digest publish [] (blocking ∷ []) [] the_failure
publisher_stops_at_first_failure_example =
    publisher_stops_at_first_failure as_is digest publish (blocking ∷ []) [] [] the_failure (
      unpaid_cancellation_blocks_stream as_is digest publish lapsed lapsed_cancelled
        (change_to cancelled) ten (traced_from awaiting_payment) refl refl cancelling_lapsed refl
        lapsed-IsSound lapsed_cancelled-IsReadable (no_names lapsed_cancelled refl refl)
        sample_mutation_ok blocking (modified-Holds lapsed_cancelled (traced_from awaiting_payment))
        "100" numbered [] [])
