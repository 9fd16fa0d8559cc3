-- ===== src/Events/Stored/Reads.antt =====
-- What the reader of the stream (src/events/order-stream-event.ts) finds in a stored order.
use serverless_order_integra.Base.{
  ◌==◌, leb, String, str_length, ◌≡◌, refl, true, false, ◌&&◌, Option, none, some, ok,
}
use serverless_order_integra.Domain.Status.{OrderStatus, awaiting_payment, status_text}
use serverless_order_integra.Domain.Order.{
  Order, DeliveryProviderCode, mock_delivery, provider_code_text,
}
use serverless_order_integra.Repository.Contract.{OrderStatusChangedMutation}
use serverless_order_integra.Json.{
  max_safe_integer, Fields, Value, str, obj, as_positive, lookup, lookup-first_opt_field,
  lookup-second_opt_field, opt_field, end_of_object,
}
use serverless_order_integra.Events.Stream.{
  StreamMutation, StreamOrder, status_changed, required_string, read_reason, read_order,
  read_mutation, read_item,
}
use serverless_order_integra.Events.Stored.{
  opt_text, payment_value, opt_failure, order_value, OrderMutation, value_of_mutation,
  to_stored_order,
}

abbrev pub NonEmpty : String → Type 0
NonEmpty s = (str_length s == 0) ≡ false

-- Texts that the reader requires are not empty, and the version is a safe positive integer.
pub record IsReadable (o : Order) : Type 0 where
  pub order_id : NonEmpty o.order_id
  pub merchant_id : NonEmpty o.merchant_id
  pub updated_at : NonEmpty o.updated_at
  pub submission_key : NonEmpty o.provider.delivery_provider_submission_key
  pub version : (leb 1 o.version && leb o.version max_safe_integer) ≡ true

abbrev pub streamed : Order → StreamOrder
streamed o = record {
  order_id = o.order_id;
  merchant_id = o.merchant_id;
  status = status_text o.status;
  version = o.version;
  updated_at = o.updated_at;
  delivery_provider_submission_key = o.provider.delivery_provider_submission_key;
  delivery_provider_order_id = opt_text o.provider.delivery_provider_order_id;
  accepted_at = opt_text o.provider.accepted_at;
  payment = payment_value o.payment;
  failure = opt_failure o.failure;
}

required_string-str :
    (v : Option Value) (s field : String)
    → v ≡ some (str s)
    → NonEmpty s
    → required_string v field ≡ ok s
required_string-str v s field e n = rw (e, n)

-- `readOrder` on an object, by what stands in its properties.
read_order-fields :
    (value provider : Fields) (o : StreamOrder)
    → lookup "provider" value ≡ some (obj provider)
    → lookup "deliveryProviderCode" provider ≡ some (str "mock-delivery")
    → as_positive (lookup "version" value) ≡ some o.version
    → required_string (lookup "orderId" value) "orderId" ≡ ok o.order_id
    → required_string (lookup "merchantId" value) "merchantId" ≡ ok o.merchant_id
    → required_string (lookup "updatedAt" value) "updatedAt" ≡ ok o.updated_at
    → required_string
        (lookup "deliveryProviderSubmissionKey" provider)
        "deliveryProviderSubmissionKey"
      ≡ ok o.delivery_provider_submission_key
    → required_string (lookup "status" value) "status" ≡ ok o.status
    → lookup "deliveryProviderOrderId" provider ≡ o.delivery_provider_order_id
    → lookup "acceptedAt" provider ≡ o.accepted_at
    → lookup "payment" value ≡ o.payment
    → lookup "failure" value ≡ o.failure
    → read_order (some (obj value)) ≡ ok o
unfolding read_order
read_order-fields value provider o h1 h2 h3 h4 h5 h6 h7 h8 h9 h10 h11 h12 =
    rw (h1, h2, h3, h4, h5, h6, h7, h8, h9, h10, h11, h12)

status-NonEmpty : (s : OrderStatus) → NonEmpty (status_text s)
unfolding str_length
status-NonEmpty awaiting_payment = refl
status-NonEmpty _ = refl

code_value :
    (c : DeliveryProviderCode) → some (str (provider_code_text c)) ≡ some (str "mock-delivery")
code_value mock_delivery = refl

read_order_value : (o : Order) → IsReadable o → read_order (some (order_value o)) ≡ ok (streamed o)
unfolding order_value
read_order_value o r =
    read_order-fields _ _ (streamed o) refl (code_value o.provider.delivery_provider_code)
      (rw (r.version)) (rw (r.order_id)) (rw (r.merchant_id)) (rw (r.updated_at))
      (rw (r.submission_key)) (rw (status-NonEmpty o.status))
      (lookup-first_opt_field "deliveryProviderOrderId" "acceptedAt" _ _ refl)
      (lookup-second_opt_field "deliveryProviderOrderId" "acceptedAt" _ _ refl)
      (lookup-first_opt_field "payment" "failure" _ _ refl)
      (lookup-second_opt_field "payment" "failure" _ _ refl)

-- The trace of a change, as the reader requires it.
pub record IsTraced (m : OrderStatusChangedMutation) : Type 0 where
  pub correlation : NonEmpty m.correlation_id
  pub causation : NonEmpty m.causation_id

abbrev pub stream_mutation : OrderStatusChangedMutation → StreamMutation
stream_mutation m =
    status_changed m.correlation_id m.causation_id (status_text m.previous_status) m.reason

read_reason-text :
    (r : Option String)
    → read_reason (lookup "reason" (opt_field "reason" (opt_text r) end_of_object)) ≡ ok r
read_reason-text none = refl
read_reason-text (some r) = refl

read_mutation-value :
    (m : OrderStatusChangedMutation)
    → IsTraced m
    → read_mutation (some (value_of_mutation (OrderMutation.status_changed m)))
      ≡ ok (stream_mutation m)
unfolding read_mutation value_of_mutation
read_mutation-value m t =
    rw (t.correlation, t.causation, status-NonEmpty m.previous_status, read_reason-text m.reason)

-- What the reader finds in the item that is stored for a changed order.
pub read_item-stored :
    (o : Order) (m : OrderStatusChangedMutation)
    → IsReadable o
    → IsTraced m
    → read_item (to_stored_order o (OrderMutation.status_changed m))
      ≡ ok (some (record { order = streamed o; mutation = stream_mutation m }))
unfolding read_item to_stored_order
read_item-stored o m r t = rw (read_order_value o r, read_mutation-value m t)
