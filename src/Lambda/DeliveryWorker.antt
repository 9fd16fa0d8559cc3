-- ===== src/Lambda/DeliveryWorker.antt =====
-- src/lambda/delivery-worker.ts: the handler of the delivery queue, which processes each message of
-- a batch by itself and reports those that it could not process.
pub mod Reports
use serverless_order_integra.Base.{
  ◌==◌, not, String, str_length, Option, List, [], ◌∷◌, ◌++◌, Result, ok, err, Bool,
}
use serverless_order_integra.Base.Exec.{pure, lift, check, attempt, ◌>>=◌, ◌>>◌}
use serverless_order_integra.Domain.Order.{Order}
use serverless_order_integra.Domain.Errors.{AppError, plain_error}
use serverless_order_integra.Json.{Value}
use serverless_order_integra.Events.DeliveryRequested.{parse_delivery_requested_event}
use serverless_order_integra.App.World.{App}
use serverless_order_integra.App.Delivery.{
  DeliveryProviderAcceptance, ProcessDeliveryEventOutcome, process_delivery_event,
}

-- `SQSRecord`: what is read of it besides the count of attempts, which is only logged.
pub record SqsRecord : Type 0 where
  pub message_id : String
  pub body : String

-- The handler with `processDeliveryEvent` as its processor, as the default handler has it. `vendor`
-- and `now` are those of the service; `is_date` and `parse` those of the parser.
module _ (is_date : String → Bool) (parse : String → Option Value)
    (vendor : Order → String → Result AppError DeliveryProviderAcceptance) (now : String) where
  -- The body of the `try`.
  unfoldable pub process_message : SqsRecord → App ProcessDeliveryEventOutcome
  process_message rec = do
    event ← lift (parse_delivery_requested_event is_date parse rec.body)
    process_delivery_event vendor now event

  -- The failures that are added after the `try`.
  abbrev pub reported_failure : String → Result AppError ProcessDeliveryEventOutcome → List String
  reported_failure identifier (ok _) = []
  reported_failure identifier (err e) = identifier ∷ []

  unfoldable pub delivery_worker_handler : List SqsRecord → App (List String)
  delivery_worker_handler [] = pure []
  delivery_worker_handler (rec ∷ recs) = do
    check (not (str_length rec.message_id == 0))
        (plain_error "SQS record is missing its message ID.")
    attempt (process_message rec) λ result. do
      failures ← delivery_worker_handler recs
      pure (reported_failure rec.message_id result ++ failures)
