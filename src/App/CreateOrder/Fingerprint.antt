-- ===== src/App/CreateOrder/Fingerprint.antt =====
-- `fingerprintCreateOrderRequest` (src/application/create-order.ts).
use serverless_order_integra.Base.{String}
use serverless_order_integra.Json.{Value, obj, arr, str, end_of_object, field}
use serverless_order_integra.Json.Text.{stringify}
use serverless_order_integra.App.CreateOrder.{CreateOrderRequest}
use serverless_order_integra.Events.Stored.{items_of, location_value}

-- `canonicalRequest`
unfoldable pub canonical_request : CreateOrderRequest → Value
canonical_request request = obj (
    field "merchantOrderId" (str request.merchant_order_id) (
      field "items" (arr (items_of request.items)) (
        field "pickup" (location_value request.pickup)
          (field "dropoff" (location_value request.dropoff) end_of_object))))

-- `digest` is the SHA-256 of a text, written in hexadecimal.
unfoldable pub fingerprint_create_order_request :
    (digest : String → String) → CreateOrderRequest → String
fingerprint_create_order_request digest request = digest (stringify (canonical_request request))
