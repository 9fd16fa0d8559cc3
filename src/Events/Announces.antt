-- ===== src/Events/Announces.antt =====
-- What the mapping of a read item (src/events/order-stream-event.ts) gives for each edge of the
-- life cycle.
use serverless_order_integra.Base.{
  String, ◌≡◌, refl, true, Option, none, some, Result, ok, err, subst,
}
use serverless_order_integra.Domain.Status.{
  OrderStatus, awaiting_payment, pending_submission, submission_failed, submitted, picked_up,
  delivered, delivery_failed, cancelled, succeeded, status_text,
}
use serverless_order_integra.Domain.Errors.{AppError}
use serverless_order_integra.Domain.Order.{
  Order, FailureStage, submission, delivery, FailureDetails,
}
use serverless_order_integra.Domain.Transition.Permits.{Edge, PaidAs, ExplainedAs}
use serverless_order_integra.Domain.Lifecycle.{IsSound}
use serverless_order_integra.Json.{is_text, chain}
use serverless_order_integra.Events.{
  DomainEventType, order_ready_for_submission, order_submitted, order_submission_failed,
  order_submission_retry_requested, order_cancelled, order_picked_up, order_delivered,
  order_delivery_failed, Payload, submitted_payload, submission_failed_payload, picked_up_payload,
  delivered_payload, delivery_failed_payload, DomainEvent,
}
use serverless_order_integra.Events.Stream.{
  DynamoDbRecord, StreamOrderItem, StreamMutation, event_id, event_id_text, enveloped,
  correlation_of, causation_of,
}
use serverless_order_integra.Events.StatusChanged.{
  delivery_provider_order_id, accepted_at, failure, delivered_body, delivery_failed_body,
  event_of_status,
}
use serverless_order_integra.Events.Stored.{stage_text, failure_value, payment_value}
use serverless_order_integra.Events.Stored.Reads.{NonEmpty, streamed}

-- The type of the event of each change of status, in the words of
-- docs/specifications/domain-events.md; `none` where the mapping refuses the change.
unfoldable pub event_for : OrderStatus → OrderStatus → Option String → Option DomainEventType
event_for awaiting_payment pending_submission reason = some order_ready_for_submission
event_for pending_submission submitted reason = some order_submitted
event_for pending_submission submission_failed reason = some order_submission_failed
event_for submission_failed pending_submission (some reason) = some order_submission_retry_requested
event_for pending_submission cancelled reason = some order_cancelled
event_for submission_failed cancelled reason = some order_cancelled
event_for submitted cancelled reason = some order_cancelled
event_for submitted picked_up reason = some order_picked_up
event_for submitted delivered reason = some order_delivered
event_for picked_up delivered reason = some order_delivered
event_for submitted delivery_failed reason = some order_delivery_failed
event_for picked_up delivery_failed reason = some order_delivery_failed
event_for _ _ reason = none

-- The envelope of an event, said of the item it comes from.
pub record Describes (e : DomainEvent) (source : StreamOrderItem) (t : DomainEventType)
    : Type 0 where
  pub event_type : e.event_type ≡ t
  pub aggregate : e.aggregate_id ≡ source.order.order_id
  pub version : e.aggregate_version ≡ source.order.version
  pub occurred : e.occurred_at ≡ source.order.updated_at
  pub correlation : e.correlation_id ≡ correlation_of source.mutation
  pub causation : e.causation_id ≡ causation_of source.mutation

-- An event of the type is given, or an error where there is none.
abbrev pub Announces :
    StreamOrderItem → Option DomainEventType → Result AppError (Option DomainEvent) → Type 0
Announces source none r = (x : AppError) × (r ≡ err x)
Announces source (some t) r = (e : DomainEvent) × (r ≡ ok (some e)) × Describes e source t

-- The ids that a record of the stream has.
pub record HasIds {Image : Type 0} (rec : DynamoDbRecord Image) : Type 0 where
  pub arn : String
  pub arn_given : (rec.event_source_arn ≡ some arn) × NonEmpty arn
  pub id : String
  pub id_given : (rec.event_id ≡ some id) × NonEmpty id

module _ {Image : Type 0} (digest : String → String) (rec : DynamoDbRecord Image)
    (h : HasIds rec) where
  event_id-given : (t : DomainEventType) → (x : String) × (event_id digest rec t ≡ ok x)
  unfolding event_id
  event_id-given t = (
    event_id_text digest h.arn h.id t,
    rw (h.arn_given.0, h.arn_given.1, h.id_given.0, h.id_given.1),
  )

  enveloped-Describes :
      (source : StreamOrderItem) (t : DomainEventType) (r : Result AppError Payload) (p : Payload)
      → r ≡ ok p
      → Announces source (some t) (enveloped digest rec source t r)
  unfolding enveloped
  enveloped-Describes source t r p e =
      let (x, y) = event_id-given t in
      (
        record {
          event_id = x;
          event_type = t;
          aggregate_id = source.order.order_id;
          aggregate_version = source.order.version;
          occurred_at = source.order.updated_at;
          correlation_id = correlation_of source.mutation;
          causation_id = causation_of source.mutation;
          payload = p;
        },
        rw (y, e),
        record {
          event_type = refl;
          aggregate = refl;
          version = refl;
          occurred = refl;
          correlation = refl;
          causation = refl;
        },
      )

paid_is_read :
    (q : Order)
    → PaidAs q.payment succeeded
    → is_text (chain (payment_value q.payment) "status") "SUCCEEDED" ≡ true
paid_is_read q (p, h, e) = rw (h, e)

-- What the provider gave is not the empty text.
pub record HasNames (q : Order) : Type 0 where
  pub id : (s : String) → q.provider.delivery_provider_order_id ≡ some s → NonEmpty s
  pub at : (s : String) → q.provider.accepted_at ≡ some s → NonEmpty s

id_is_read :
    (q : Order) (s : String)
    → HasNames q
    → q.provider.delivery_provider_order_id ≡ some s
    → delivery_provider_order_id (streamed q) ≡ ok s
unfolding delivery_provider_order_id
id_is_read q s n e = rw (e, n.id s e)

acceptance_is_read :
    (q : Order) (s : String)
    → HasNames q
    → q.provider.accepted_at ≡ some s
    → accepted_at (streamed q) ≡ ok s
unfolding accepted_at
acceptance_is_read q s n e = rw (e, n.at s e)

failure_is_read :
    (q : Order) (f : FailureDetails) (st : FailureStage)
    → q.failure ≡ some f
    → f.stage ≡ st
    → failure (streamed q) (stage_text st) ≡ ok (failure_value f)
unfolding failure
failure_is_read q f submission e g = rw (e, g)
failure_is_read q f delivery e g = rw (e, g)

module _ {Image : Type 0} (digest : String → String) (rec : DynamoDbRecord Image) (h : HasIds rec)
    (q : Order) (s : IsSound q) (n : HasNames q) (mutation : StreamMutation) where
  abbrev pub source : StreamOrderItem
  source = record { order = streamed q; mutation = mutation }

  abbrev pub EventFor : OrderStatus → OrderStatus → Option String → Type 0
  EventFor a b reason =
      Announces source (event_for a b reason)
        (event_of_status digest rec source (status_text a) reason (some b))

  failed_delivery-Announces :
      (previous : OrderStatus) (reason : Option String)
      → q.status ≡ delivery_failed
      → Announces source (some order_delivery_failed) (
          enveloped digest rec source order_delivery_failed
            (delivery_failed_body (streamed q) (status_text previous) reason))
  failed_delivery-Announces previous reason e =
      let ((id, i), _) = s.accepted (rw (e)) in
      let (f, j, k) = subst (λ x. ExplainedAs x q.failure) e s.explained in
      enveloped-Describes digest rec h source order_delivery_failed _
        (delivery_failed_payload q.merchant_id (status_text previous) id (failure_value f) reason)
        (rw (id_is_read q id n i, failure_is_read q f delivery j k))

  delivery-Announces :
      (previous : OrderStatus) (reason : Option String)
      → q.status ≡ delivered
      → Announces source (some order_delivered) (
          enveloped digest rec source order_delivered
            (delivered_body (streamed q) (status_text previous) reason))
  delivery-Announces previous reason e =
      let ((id, i), _) = s.accepted (rw (e)) in
      enveloped-Describes digest rec h source order_delivered _
        (delivered_payload q.merchant_id (status_text previous) id reason)
        (rw (id_is_read q id n i))

  pub Edge-Announces :
      {a b : OrderStatus} (reason : Option String) → Edge a b → q.status ≡ b → EventFor a b reason
  unfolding event_for event_of_status
  Edge-Announces reason Edge.pay e =
      rw (paid_is_read q (s.paid (rw (e))))
        (enveloped-Describes digest rec h source order_ready_for_submission _ _ refl)
  Edge-Announces reason Edge.abandon e = (_, refl)
  Edge-Announces reason Edge.submit e =
      let ((id, i), (at, j)) = s.accepted (rw (e)) in
      enveloped-Describes digest rec h source order_submitted _
        (submitted_payload q.merchant_id id at reason)
        (rw (id_is_read q id n i, acceptance_is_read q at n j))
  Edge-Announces reason Edge.fail_submission e =
      let (f, i, j) = subst (λ x. ExplainedAs x q.failure) e s.explained in
      enveloped-Describes digest rec h source order_submission_failed _
        (submission_failed_payload q.merchant_id (failure_value f))
        (rw (failure_is_read q f submission i j))
  Edge-Announces reason Edge.withdraw e =
      enveloped-Describes digest rec h source order_cancelled _ _ refl
  Edge-Announces none Edge.retry e = (_, refl)
  Edge-Announces (some r) Edge.retry e =
      enveloped-Describes digest rec h source order_submission_retry_requested _ _ refl
  Edge-Announces reason Edge.give_up e =
      enveloped-Describes digest rec h source order_cancelled _ _ refl
  Edge-Announces reason Edge.pick_up e =
      let ((id, i), _) = s.accepted (rw (e)) in
      enveloped-Describes digest rec h source order_picked_up _
        (picked_up_payload q.merchant_id id reason) (rw (id_is_read q id n i))
  Edge-Announces reason Edge.deliver_directly e = delivery-Announces submitted reason e
  Edge-Announces reason Edge.fail_directly e = failed_delivery-Announces submitted reason e
  Edge-Announces reason Edge.recall e =
      enveloped-Describes digest rec h source order_cancelled _ _ refl
  Edge-Announces reason Edge.deliver e = delivery-Announces picked_up reason e
  Edge-Announces reason Edge.fail_delivery e = failed_delivery-Announces picked_up reason e
