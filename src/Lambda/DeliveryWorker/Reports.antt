-- ===== src/Lambda/DeliveryWorker/Reports.antt =====
-- Which messages the delivery worker reports as failed.
use serverless_order_integra.Base.{
  ◌==◌, String, str_length, ◌≡◌, refl, false, Bool, Option, List, [], ◌∷◌, Result, ok, err,
  Result-cases, inl, inr,
}
use serverless_order_integra.Domain.Order.{Order}
use serverless_order_integra.Domain.Errors.{AppError}
use serverless_order_integra.Json.{Value}
use serverless_order_integra.App.World.{World}
use serverless_order_integra.Events.DeliveryRequested.{parse_delivery_requested_event}
use serverless_order_integra.App.Delivery.{
  DeliveryRequestedEvent, process_delivery_event, DeliveryProviderAcceptance,
  ProcessDeliveryEventOutcome,
}
use serverless_order_integra.Lambda.DeliveryWorker.{
  SqsRecord, process_message, delivery_worker_handler,
}

-- Every message has an id.
pub data AllNamed : List SqsRecord → Type 0 where
  none_left : AllNamed []
  named :
      {rec : SqsRecord} {recs : List SqsRecord}
      → (str_length rec.message_id == 0) ≡ false
      → AllNamed recs
      → AllNamed (rec ∷ recs)

module _ (is_date : String → Bool) (parse : String → Option Value)
    (vendor : Order → String → Result AppError DeliveryProviderAcceptance) (now : String) where
  -- Every message is processed, each in the world that the one before it has left. It is reported
  -- when its body is no event, which changes nothing, or when the service throws on the event.
  pub data Processed : World → List SqsRecord → World → List String → Type 0 where
    nothing : {w : World} → Processed w [] w []
    succeeds :
        {w w' w'' : World} {rec : SqsRecord} {recs : List SqsRecord} {failures : List String}
        (event : DeliveryRequestedEvent) (outcome : ProcessDeliveryEventOutcome)
        → parse_delivery_requested_event is_date parse rec.body ≡ ok event
        → process_delivery_event vendor now event w ≡ (ok outcome, w')
        → Processed w' recs w'' failures
        → Processed w (rec ∷ recs) w'' failures
    is_no_event :
        {w w' : World} {rec : SqsRecord} {recs : List SqsRecord} {failures : List String}
        (error : AppError)
        → parse_delivery_requested_event is_date parse rec.body ≡ err error
        → Processed w recs w' failures
        → Processed w (rec ∷ recs) w' (rec.message_id ∷ failures)
    throws :
        {w w' w'' : World} {rec : SqsRecord} {recs : List SqsRecord} {failures : List String}
        (event : DeliveryRequestedEvent) (error : AppError)
        → parse_delivery_requested_event is_date parse rec.body ≡ ok event
        → process_delivery_event vendor now event w ≡ (err error, w')
        → Processed w' recs w'' failures
        → Processed w (rec ∷ recs) w'' (rec.message_id ∷ failures)

  -- The delivery worker returns for every batch whose messages have ids, whatever their bodies are
  -- and whatever their processing throws: it processes every message, in order, each in the world
  -- that the one before it has left, and reports exactly the messages whose body is no event, which
  -- change nothing, and those on whose event the service throws.
  pub worker_reports_failed_messages :
      (recs : List SqsRecord) (w : World)
      → AllNamed recs
      → (failures : List String) × (w' : World) × (delivery_worker_handler is_date parse vendor now
            recs w
          ≡ (ok failures, w'))
        × Processed w recs w' failures
  unfolding delivery_worker_handler process_message
  worker_reports_failed_messages [] w none_left = ([], w, refl, nothing)
  worker_reports_failed_messages (rec ∷ recs) w (named n a) =
      elim (Result-cases (parse_delivery_requested_event is_date parse rec.body)) [
        | inr (e, b) ↦
            let (failures, w', h, p) = worker_reports_failed_messages recs w a in
            (rec.message_id ∷ failures, w', rw (n, b, h), is_no_event e b p)
        | inl (event, b) ↦
            let process = process_delivery_event vendor now event in
            let (failures, w', h, p) = worker_reports_failed_messages recs (process w).1 a in
            elim (Result-cases (process w).0) [
              | inl (outcome, i) ↦ (failures, w', rw (n, b, i, h), succeeds event outcome b (cc) p)
              | inr (e, i) ↦
                  (rec.message_id ∷ failures, w', rw (n, b, i, h), throws event e b (cc) p)
            ]
      ]
