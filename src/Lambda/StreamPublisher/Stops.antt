-- ===== src/Lambda/StreamPublisher/Stops.antt =====
-- What the stream publisher has done when it returns.
use serverless_order_integra.Base.{
  Result, String, ◌≡◌, refl, ap, subst, ◌⊎◌, inl, inr, none, some, List, [], ◌∷◌, ◌++◌, ok, err,
  Result-cases,
}
use serverless_order_integra.Base.Exec.{Exec}
use serverless_order_integra.Domain.Errors.{AppError}
use serverless_order_integra.Json.{Fields}
use serverless_order_integra.Events.{DomainEvent}
use serverless_order_integra.Events.Stream.{DynamoDbRecord}
use serverless_order_integra.Events.StatusChanged.{domain_event_from_order_stream_record}
use serverless_order_integra.Lambda.StreamPublisher.{
  sequence_number, handle_record, stream_publisher_handler,
}

module _ {Image W : Type 0} (unmarshall : Image → Result AppError Fields) (digest : String → String)
    (publish : DomainEvent → Exec W AppError (Unit {0})) where
  -- A record is handled: it gives no event, or the publisher has taken its event.
  pub data IsHandled (rec : DynamoDbRecord Image) (w w' : W) : Type 0 where
    silent :
        domain_event_from_order_stream_record unmarshall digest rec ≡ ok none
        → w ≡ w'
        → IsHandled rec w w'
    published :
        (event : DomainEvent)
        → domain_event_from_order_stream_record unmarshall digest rec ≡ ok (some event)
        → publish event w ≡ (ok tt, w')
        → IsHandled rec w w'

  -- A record is refused: it cannot be mapped, or the publisher has not taken its event.
  pub data IsRefused (rec : DynamoDbRecord Image) (w w' : W) : Type 0 where
    unmapped :
        (error : AppError)
        → domain_event_from_order_stream_record unmarshall digest rec ≡ err error
        → w ≡ w'
        → IsRefused rec w w'
    unpublished :
        (event : DomainEvent) (error : AppError)
        → domain_event_from_order_stream_record unmarshall digest rec ≡ ok (some event)
        → publish event w ≡ (err error, w')
        → IsRefused rec w w'

  ok-IsHandled :
      (rec : DynamoDbRecord Image) (w w' : W)
      → handle_record unmarshall digest publish rec w ≡ (ok tt, w')
      → IsHandled rec w w'
  unfolding handle_record
  ok-IsHandled rec w w' h =
      elim (Result-cases (domain_event_from_order_stream_record unmarshall digest rec)) [
        | inr (e, n) ↦ let g = rw (n) at h in cc
        | inl (none, n) ↦ let g = rw (n) at h in IsHandled.silent n (cc)
        | inl (some event, n) ↦ IsHandled.published event n (rw (n) at h)
      ]

  err-IsRefused :
      (rec : DynamoDbRecord Image) (w w' : W) (error : AppError)
      → handle_record unmarshall digest publish rec w ≡ (err error, w')
      → IsRefused rec w w'
  unfolding handle_record
  err-IsRefused rec w w' error h =
      elim (Result-cases (domain_event_from_order_stream_record unmarshall digest rec)) [
        | inr (e, n) ↦ let g = rw (n) at h in IsRefused.unmapped e n (cc)
        | inl (none, n) ↦ let g = rw (n) at h in cc
        | inl (some event, n) ↦ IsRefused.unpublished event error n (rw (n) at h)
      ]

  -- One record after the other is handled.
  pub data Handled : W → List (DynamoDbRecord Image) → W → Type 0 where
    nothing : {w : W} → Handled w [] w
    and_then :
        {w w' w'' : W} {rec : DynamoDbRecord Image} {recs : List (DynamoDbRecord Image)}
        → IsHandled rec w w'
        → Handled w' recs w''
        → Handled w (rec ∷ recs) w''

  pub record StoppedAt (w : W) (recs : List (DynamoDbRecord Image)) (w' : W)
      (failures : List String) : Type 0 where
    pub before : List (DynamoDbRecord Image)
    pub failed : DynamoDbRecord Image
    pub unhandled : List (DynamoDbRecord Image)
    pub split : recs ≡ before ++ (failed ∷ unhandled)
    pub middle : W
    pub handled : Handled w before middle
    pub refused : IsRefused failed middle w'
    pub identifier : String
    pub numbered : sequence_number failed ≡ ok identifier
    pub reported : failures ≡ identifier ∷ []

  extend_StoppedAt :
      {w w' w'' : W} {rec : DynamoDbRecord Image} {recs : List (DynamoDbRecord Image)}
      {failures : List String}
      → IsHandled rec w w'
      → StoppedAt w' recs w'' failures
      → StoppedAt w (rec ∷ recs) w'' failures
  extend_StoppedAt {rec} h s = record {
    before = rec ∷ s.before;
    failed = s.failed;
    unhandled = s.unhandled;
    split = ap (◌∷◌ rec) s.split;
    middle = s.middle;
    handled = and_then h s.handled;
    refused = s.refused;
    identifier = s.identifier;
    numbered = s.numbered;
    reported = s.reported;
  }

  stop_here :
      {rec : DynamoDbRecord Image} (recs : List (DynamoDbRecord Image)) {w w' : W} {id : String}
      {e : AppError} {failures : List String}
      → sequence_number rec ≡ ok id
      → (handle_record unmarshall digest publish rec w).0 ≡ err e
      → failures ≡ id ∷ []
      → (handle_record unmarshall digest publish rec w).1 ≡ w'
      → StoppedAt w (rec ∷ recs) w' failures
  stop_here {rec} recs {w} {id} {e} n i f g = record {
    before = [];
    failed = rec;
    unhandled = recs;
    split = refl;
    middle = w;
    handled = nothing;
    refused = err-IsRefused rec w _ e (cc);
    identifier = id;
    numbered = n;
    reported = f;
  }

  -- When the stream publisher returns, either every record has been handled, in order, and no
  -- failure is reported, or the records before some record have been, that record has been refused,
  -- the records after it are left alone, and its sequence number is the one failure reported. A
  -- record is handled when it gives no event and changes nothing, or when the publisher takes its
  -- event; it is refused when it cannot be mapped or the publisher throws.
  pub publisher_stops_at_first_failure :
      (recs : List (DynamoDbRecord Image)) (w w' : W) (failures : List String)
      → stream_publisher_handler unmarshall digest publish recs w ≡ (ok failures, w')
      → ((failures ≡ []) × Handled w recs w') ⊎ StoppedAt w recs w' failures
  unfolding stream_publisher_handler
  publisher_stops_at_first_failure [] w w' failures h =
      inl (cc, subst (λ x. Handled w [] x) (cc) nothing)
  publisher_stops_at_first_failure (rec ∷ recs) w w' failures h =
      elim (Result-cases (sequence_number rec)) [
        | inr (e, n) ↦ let g = rw (n) at h in cc
        | inl (id, n) ↦
            let handle = handle_record unmarshall digest publish rec in
            let g = rw (n) at h in
            elim (Result-cases (handle w).0) [
              | inl (u, i) ↦
                  elim (publisher_stops_at_first_failure recs (handle w).1 w' failures
                    (rw (i) at g)) [
                      | inl (e, d) ↦ inl (e, and_then (ok-IsHandled rec w _ (cc)) d)
                      | inr s ↦ inr (extend_StoppedAt (ok-IsHandled rec w _ (cc)) s)
                    ]
              | inr (e, i) ↦ let k = rw (i) at g in inr (stop_here recs n i (cc) (cc))
            ]
      ]
