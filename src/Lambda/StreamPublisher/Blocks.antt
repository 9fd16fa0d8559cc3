-- ===== src/Lambda/StreamPublisher/Blocks.antt =====
-- A record that the mapping refuses, at the head of a batch.
use serverless_order_integra.Base.{Result, String, ◌≡◌, List, [], ◌∷◌, ok, err, fresh}
use serverless_order_integra.Base.Exec.{Exec}
use serverless_order_integra.Domain.Status.{awaiting_payment, cancelled}
use serverless_order_integra.Domain.Errors.{AppError}
use serverless_order_integra.Domain.Order.{Order}
use serverless_order_integra.Domain.Transition.{OrderStatusChange, apply_order_status_change}
use serverless_order_integra.Domain.Lifecycle.{IsSound}
use serverless_order_integra.Repository.Contract.{OrderStatusChangedMutation}
use serverless_order_integra.Json.{Fields}
use serverless_order_integra.Events.{DomainEvent}
use serverless_order_integra.Events.Stream.{DynamoDbRecord}
use serverless_order_integra.Events.StatusChanged.{domain_event_from_order_stream_record}
use serverless_order_integra.Events.Stored.{OrderMutation, to_stored_order}
use serverless_order_integra.Events.Stored.Reads.{IsReadable, IsTraced}
use serverless_order_integra.Events.Announces.{event_for, HasNames}
use serverless_order_integra.Events.Publishes.{Holds, status_change_is_announced}
use serverless_order_integra.Lambda.StreamPublisher.{
  sequence_number, handle_record, stream_publisher_handler,
}

module _ {Image W : Type 0} (unmarshall : Image → Result AppError Fields) (digest : String → String)
    (publish : DomainEvent → Exec W AppError (Unit {0})) where
  refused_record_stops :
      (rec : DynamoDbRecord Image) (recs : List (DynamoDbRecord Image)) (w : W) (id : String)
      {e : AppError}
      → sequence_number rec ≡ ok id
      → domain_event_from_order_stream_record unmarshall digest rec ≡ err e
      → stream_publisher_handler unmarshall digest publish (rec ∷ recs) w ≡ (ok (id ∷ []), w)
  unfolding stream_publisher_handler handle_record
  refused_record_stops rec recs w id n h = rw (n, h)

  -- An unpaid order that the domain has cancelled blocks the stream: the handler reports its record
  -- as the failure, and publishes neither it nor any record that follows it in the batch. The order
  -- before it is sound, and the record holds the cancelled order with non-empty texts.
  pub unpaid_cancellation_blocks_stream :
      (o q : Order) (c : OrderStatusChange) (at : String) (m : OrderStatusChangedMutation)
      → o.status ≡ awaiting_payment
      → c.target_status ≡ cancelled
      → apply_order_status_change o c at ≡ ok (fresh q)
      → m.previous_status ≡ o.status
      → IsSound o
      → IsReadable q
      → HasNames q
      → IsTraced m
      → (rec : DynamoDbRecord Image)
      → Holds unmarshall rec (to_stored_order q (OrderMutation.status_changed m))
      → (id : String) → sequence_number rec ≡ ok id
      → (recs : List (DynamoDbRecord Image)) (w : W)
      → stream_publisher_handler unmarshall digest publish (rec ∷ recs) w ≡ (ok (id ∷ []), w)
  unfolding event_for
  unpaid_cancellation_blocks_stream o q c at m i j a p s r n t rec h id k recs w =
      let x = status_change_is_announced unmarshall digest rec q m o c at a p s r n t h in
      let (e, g) = rw (i, j) at x in refused_record_stops rec recs w id k g
