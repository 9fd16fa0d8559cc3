-- ===== src/Events/Stored.antt =====
-- `toStoredOrder` (src/infrastructure/dynamodb/dynamodb-order-repository.ts): the item of an order
-- as the value that is marshalled, without the properties that are `undefined`.
pub mod Reads
use Prim.Native.String.{◌++◌ as str_append}
use serverless_order_integra.Base.{pos, String, Option, none, some, List, [], ◌∷◌}
use serverless_order_integra.Domain.Status.{status_text, payment_status_text}
use serverless_order_integra.Domain.Order.{
  Money, OrderLine, DeliveryLocation, provider_code_text, DeliveryProviderAssignment, FailureStage,
  submission, delivery, FailureDetails, PaymentFailure, OrderPayment, Order,
}
use serverless_order_integra.Repository.Contract.{
  OrderCreatedMutation, OrderStatusChangedMutation, OrderPaymentChangedMutation,
}
use serverless_order_integra.Json.{
  int, Value, num, str, arr, obj, Items, end_of_array, item, Fields, end_of_object, field,
  opt_field,
}

abbrev pub money_value : Money → Value
money_value m = obj (
    field "amountMinor" (num (int (pos m.amount_minor)))
      (field "currency" (str m.currency) end_of_object))

abbrev pub line_value : OrderLine → Value
line_value l = obj (
    field "itemReference" (str l.item_reference) (
      field "description" (str l.description) (
        field "quantity" (num (int (pos l.quantity)))
          (field "unitPrice" (money_value l.unit_price) end_of_object))))

abbrev pub items_of : List OrderLine → Items
items_of [] = end_of_array
items_of (l ∷ ls) = item (line_value l) (items_of ls)

abbrev pub location_value : DeliveryLocation → Value
location_value l = obj (
    field "addressLine" (str l.address_line) (
      field "city" (str l.city) (
        field "postalCode" (str l.postal_code)
          (field "countryCode" (str l.country_code) end_of_object))))

abbrev pub opt_text : Option String → Option Value
opt_text none = none
opt_text (some s) = some (str s)

abbrev provider_fields : DeliveryProviderAssignment → Fields
provider_fields p =
    field "deliveryProviderCode" (str (provider_code_text p.delivery_provider_code)) (
      field "deliveryProviderSubmissionKey" (str p.delivery_provider_submission_key) (
        opt_field "deliveryProviderOrderId" (opt_text p.delivery_provider_order_id)
          (opt_field "acceptedAt" (opt_text p.accepted_at) end_of_object)))

abbrev pub stage_text : FailureStage → String
stage_text submission = "SUBMISSION"
stage_text delivery = "DELIVERY"

abbrev pub failure_value : FailureDetails → Value
failure_value f = obj (
    field "stage" (str (stage_text f.stage)) (
      field "reasonCode" (str f.reason_code)
        (field "summary" (str f.summary) (field "occurredAt" (str f.occurred_at) end_of_object))))

abbrev pub opt_failure : Option FailureDetails → Option Value
opt_failure none = none
opt_failure (some f) = some (failure_value f)

abbrev last_failure_value : Option PaymentFailure → Option Value
last_failure_value none = none
last_failure_value (some f) = some (
    obj (
      field "reasonCode" (str f.reason_code)
        (field "occurredAt" (str f.occurred_at) end_of_object)))

abbrev pub payment_value : Option OrderPayment → Option Value
payment_value none = none
payment_value (some p) = some (
    obj (
      field "status" (str (payment_status_text p.status)) (
        field "amount" (money_value p.amount) (
          field "stripeCreationKey" (str p.stripe_creation_key) (
            field "createdAt" (str p.created_at) (
              field "updatedAt" (str p.updated_at) (
                opt_field "stripePaymentIntentId" (opt_text p.stripe_payment_intent_id)
                  (opt_field "lastFailure" (last_failure_value p.last_failure) end_of_object))))))))

unfoldable pub order_value : Order → Value
order_value o = obj (
    field "orderId" (str o.order_id) (
      field "merchantId" (str o.merchant_id) (
        field "merchantOrderId" (str o.merchant_order_id) (
          field "status" (str (status_text o.status)) (
            field "items" (arr (items_of o.items)) (
              field "total" (money_value o.total) (
                field "pickup" (location_value o.pickup) (
                  field "dropoff" (location_value o.dropoff) (
                    field "provider" (obj (provider_fields o.provider)) (
                      field "createdAt" (str o.created_at) (
                        field "updatedAt" (str o.updated_at) (
                          field "version" (num (int (pos o.version))) (
                            opt_field "payment" (payment_value o.payment) (
                              opt_field "failure" (opt_failure o.failure)
                                end_of_object))))))))))))))

abbrev mutation_value : String → String → String → Fields → Value
mutation_value kind correlation_id causation_id rest = obj (
    field "kind" (str kind)
      (field "correlationId" (str correlation_id) (field "causationId" (str causation_id) rest)))

-- `OrderMutation`, of its three kinds.
pub data OrderMutation : Type 0 where
  created : OrderCreatedMutation → OrderMutation
  status_changed : OrderStatusChangedMutation → OrderMutation
  payment_changed : OrderPaymentChangedMutation → OrderMutation

unfoldable pub value_of_mutation : OrderMutation → Value
value_of_mutation (created m) =
    mutation_value "ORDER_CREATED" m.correlation_id m.causation_id end_of_object
value_of_mutation (status_changed m) =
    mutation_value "ORDER_STATUS_CHANGED" m.correlation_id m.causation_id (
      field "previousStatus" (str (status_text m.previous_status))
        (opt_field "reason" (opt_text m.reason) end_of_object))
value_of_mutation (payment_changed m) =
    mutation_value "ORDER_PAYMENT_CHANGED" m.correlation_id m.causation_id (
      field "previousPaymentStatus" (str (payment_status_text m.previous_payment_status))
        end_of_object)

abbrev merchant_key : String → String
merchant_key merchant_id = str_append "MERCHANT#" merchant_id

abbrev dynamo_list_sort_key : Order → String
dynamo_list_sort_key o = str_append "ORDER#" (str_append o.created_at (str_append "#" o.order_id))

unfoldable pub to_stored_order : Order → OrderMutation → Fields
to_stored_order o mutation = field "pk" (str (merchant_key o.merchant_id)) (
    field "sk" (str (str_append "ORDER#" o.order_id)) (
      field "gsi1pk" (str (merchant_key o.merchant_id)) (
        field "gsi1sk" (str (dynamo_list_sort_key o)) (
          field "gsi2pk"
            (str (
              str_append (merchant_key o.merchant_id)
                (str_append "#STATUS#" (status_text o.status))))
            (field "gsi2sk" (str (dynamo_list_sort_key o)) (
              field "entityType" (str "ORDER") (
                field "schemaVersion" (num (int (pos 2))) (
                  field "status" (str (status_text o.status)) (
                    field "version" (num (int (pos o.version))) (
                      field "order" (order_value o)
                        (field "mutation" (value_of_mutation mutation) end_of_object)))))))))))
