-- ===== src/Lambda/StreamPublisher.antt =====
-- src/lambda/stream-publisher.ts: the handler of the stream, which publishes the events of a batch
-- in order and stops at the first record that it cannot handle.
pub mod Stops
pub mod Blocks
use serverless_order_integra.Base.{
  ◌==◌, String, str_length, Option, none, some, List, [], ◌∷◌, Result, ok, err, if◌then◌else◌,
}
use serverless_order_integra.Base.Exec.{Exec, pure, lift, attempt, ◌>>=◌}
use serverless_order_integra.Domain.Errors.{AppError, plain_error}
use serverless_order_integra.Json.{Fields}
use serverless_order_integra.Events.{DomainEvent}
use serverless_order_integra.Events.Stream.{DynamoDbRecord}
use serverless_order_integra.Events.StatusChanged.{domain_event_from_order_stream_record}

abbrev no_sequence_number : AppError
no_sequence_number = plain_error "DynamoDB stream record is missing its sequence number."

abbrev given_number : Option String → Result AppError String
given_number none = err no_sequence_number
given_number (some value) = if str_length value == 0 then err no_sequence_number else ok value

unfoldable pub sequence_number : {Image : Type 0} → DynamoDbRecord Image → Result AppError String
sequence_number rec = given_number rec.sequence_number

-- `W` is what the publisher changes; `publish` is `DomainEventPublisher.publish`, which may throw.
-- A batch response is the list of its `itemIdentifier`s.
module _ {Image W : Type 0} (unmarshall : Image → Result AppError Fields) (digest : String → String)
    (publish : DomainEvent → Exec W AppError (Unit {0})) where
  abbrev publish_if_any : Option DomainEvent → Exec W AppError (Unit {0})
  publish_if_any none = pure tt
  publish_if_any (some event) = publish event

  -- The body of the `try`.
  unfoldable pub handle_record : DynamoDbRecord Image → Exec W AppError (Unit {0})
  handle_record rec = do
    event ← lift (domain_event_from_order_stream_record unmarshall digest rec)
    publish_if_any event

  -- The rest of the loop after the `try`: on a throw the function returns.
  abbrev pub after_handling :
      String
      → Exec W AppError (List String)
      → Result AppError (Unit {0})
      → Exec W AppError (List String)
  after_handling identifier rest (ok _) = rest
  after_handling identifier rest (err e) = pure (identifier ∷ [])

  unfoldable pub stream_publisher_handler :
      List (DynamoDbRecord Image) → Exec W AppError (List String)
  stream_publisher_handler [] = pure []
  stream_publisher_handler (rec ∷ recs) = do
    identifier ← lift (sequence_number rec)
    attempt (handle_record rec) (after_handling identifier (stream_publisher_handler recs))
