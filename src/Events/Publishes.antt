-- ===== src/Events/Publishes.antt =====
-- The stream of stored orders and the life cycle: which record gives which event.
use serverless_order_integra.Domain.Errors.{AppError}
use serverless_order_integra.Base.{Result, String, ◌≡◌, some, ok, arith, sym, fresh, ap, subst}
use serverless_order_integra.Domain.Status.{OrderStatus, status_text, read_status, read_status-text}
use serverless_order_integra.Domain.Order.{Order}
use serverless_order_integra.Domain.Transition.{OrderStatusChange, apply_order_status_change}
use serverless_order_integra.Domain.Transition.Decides.{apply-Permits, apply-Follows}
use serverless_order_integra.Domain.Lifecycle.{IsSound, Step, Step-IsSound}
use serverless_order_integra.Repository.Contract.{OrderStatusChangedMutation}
use serverless_order_integra.Json.{Fields}
use serverless_order_integra.Events.Stream.{DynamoDbRecord, StreamOrderItem, read_stream_item}
use serverless_order_integra.Events.StatusChanged.{
  domain_event_from_order_stream_record, status_changed_event, event_of_status, event_of_item,
}
use serverless_order_integra.Events.Stored.{OrderMutation, to_stored_order}
use serverless_order_integra.Events.Stored.Reads.{
  IsReadable, IsTraced, read_item-stored, streamed, stream_mutation,
}
use serverless_order_integra.Events.Announces.{
  event_for, Announces, HasIds, HasNames, Edge-Announces,
}

-- A record of the stream in which a changed order is stored.
pub record Holds {Image : Type 0} (unmarshall : Image → Result AppError Fields)
    (rec : DynamoDbRecord Image) (fields : Fields) : Type 0 where
  pub modify : rec.event_name ≡ some "MODIFY"
  pub image : Image
  pub image_given : rec.new_image ≡ some image
  pub stored : unmarshall image ≡ ok fields
  pub ids : HasIds rec

module _ {Image : Type 0} (unmarshall : Image → Result AppError Fields) (digest : String → String)
    (rec : DynamoDbRecord Image) (q : Order) (m : OrderStatusChangedMutation) where
  abbrev stored_item : StreamOrderItem
  stored_item = record { order = streamed q; mutation = stream_mutation m }

  item_is_read :
      IsReadable q
      → IsTraced m
      → Holds unmarshall rec (to_stored_order q (OrderMutation.status_changed m))
      → read_stream_item unmarshall rec ≡ ok (some stored_item)
  unfolding read_stream_item
  item_is_read r t h = rw (h.modify, h.image_given, h.stored) (read_item-stored q m r t)

  status_is_read :
      {a b : OrderStatus}
      → rec.event_name ≡ some "MODIFY"
      → m.previous_status ≡ a
      → q.status ≡ b
      → event_of_item digest rec (some stored_item)
        ≡ event_of_status digest rec stored_item (status_text a) m.reason (some b)
  unfolding event_of_item status_changed_event
  status_is_read {a} {b} modify p e =
      ground (
        arith,
        modify,
        ap status_text p,
        ap (λ x. read_status (status_text x)) e,
        read_status-text b,
      )

  -- The record of the stream in which a status change is stored that the domain has applied gives
  -- the one event of that change, with the id, version and time of the stored order and the trace
  -- of the change; only the cancellation of an unpaid order, and a retry without a reason, give an
  -- error. The order before it is sound, the texts that the reader requires are not empty, and the
  -- version is a safe integer.
  pub status_change_is_announced :
      (o : Order) (c : OrderStatusChange) (at : String)
      → apply_order_status_change o c at ≡ ok (fresh q)
      → m.previous_status ≡ o.status
      → IsSound o
      → IsReadable q
      → HasNames q
      → IsTraced m
      → Holds unmarshall rec (to_stored_order q (OrderMutation.status_changed m))
      → Announces stored_item
          (event_for o.status c.target_status m.reason)
          (domain_event_from_order_stream_record unmarshall digest rec)
  unfolding domain_event_from_order_stream_record
  status_change_is_announced o c at a p s r n t h = rw (item_is_read r t h) (
      subst (Announces stored_item (event_for o.status c.target_status m.reason))
        (sym (status_is_read h.modify p (apply-Follows o c at a).status))
        (Edge-Announces digest rec h.ids q (Step-IsSound (Step.change c at a) s) n
          (stream_mutation m) m.reason (apply-Permits o c at a).edge
          (apply-Follows o c at a).status))
