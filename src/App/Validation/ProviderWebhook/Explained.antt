-- ===== src/App/Validation/ProviderWebhook/Explained.antt =====
-- What holds of every event that passes `validateProviderWebhookEvent`.
use serverless_order_integra.Base.{
  String, eq_iff, ◌≡◌, refl, subst, true, not, Option, none, some, is_some, [], ok, arith,
}
use serverless_order_integra.Domain.Status.{OrderStatus, submission_failed}
use serverless_order_integra.Domain.Transition.{validate_failure, failure_for}
use serverless_order_integra.Domain.Order.{FailureStage, delivery, FailureDetails}
use serverless_order_integra.Domain.Transition.Permits.{ExplainedAs}
use serverless_order_integra.Json.{Value, null, bool, num, str, arr, obj, Fields, lookup, as_record}
use serverless_order_integra.App.ProviderWebhook.{
  ProviderWebhookEventType, delivery_picked_up, delivery_delivered, delivery_failed,
  delivery_cancelled, ProviderWebhookEvent, target_status, to_status_change,
}
use serverless_order_integra.App.Validation.{valid, no_issues_joined, Checked, note_if}
use serverless_order_integra.App.Validation.Reads.{
  HasLength, text_is_fine, as_text-given, as_record-given, valid_result,
}
use serverless_order_integra.App.Validation.Failure.{read_failure_fields, read_optional}
use serverless_order_integra.App.Validation.Failure.Reads.{
  IsFailureIn, timestamp_is_fine, failure_is_fine,
}
use serverless_order_integra.App.Validation.ProviderWebhook.{
  identifier_pattern, supported_event_type, delivery_stage, check_details_given, event_of,
  read_event, validate_event_fields, validate_provider_webhook_event,
}

-- The text by which a body names an event type.
abbrev pub event_type_text : ProviderWebhookEventType → String
event_type_text delivery_picked_up = "DELIVERY_PICKED_UP"
event_type_text delivery_delivered = "DELIVERY_DELIVERED"
event_type_text delivery_failed = "DELIVERY_FAILED"
event_type_text delivery_cancelled = "DELIVERY_CANCELLED"

-- The details are those that the body gives, if it gives any.
abbrev pub FailureIn : (String → Option String) → Option Value → Option FailureDetails → Type 0
FailureIn to_iso none failure = failure ≡ none
FailureIn to_iso (some v) failure =
    (f : FailureDetails) × (fields : Fields) × (failure ≡ some f)
    × (v ≡ obj fields)
    × IsFailureIn to_iso fields f

-- An event that an object gives, whose details are those that its status asks for.
pub record IsExplained (to_iso : String → Option String) (fields : Fields)
    (e : ProviderWebhookEvent) : Type 0 where
  pub event_id : lookup "eventId" fields ≡ some (str e.event_id)
  pub event_id_length : HasLength 8 128 e.event_id
  pub event_id_form : identifier_pattern e.event_id ≡ true
  pub event_type : lookup "eventType" fields ≡ some (str (event_type_text e.event_type))
  pub given_at : String
  pub occurred_at : lookup "occurredAt" fields ≡ some (str given_at)
  pub normalized : to_iso given_at ≡ some e.occurred_at
  pub provider_order_id :
      lookup "deliveryProviderOrderId" fields ≡ some (str e.delivery_provider_order_id)
  pub provider_order_id_length : HasLength 1 128 e.delivery_provider_order_id
  pub failure : FailureIn to_iso (lookup "failure" fields) e.failure
  pub explained : ExplainedAs (target_status e.event_type) e.failure

type_is_given :
    (v : Option Value) (t : ProviderWebhookEventType)
    → supported_event_type v ≡ some t
    → v ≡ some (str (event_type_text t))
unfolding supported_event_type
type_is_given none t h = cc
type_is_given (some null) t h = cc
type_is_given (some (bool b)) t h = cc
type_is_given (some (num n)) t h = cc
type_is_given (some (arr is)) t h = cc
type_is_given (some (obj fs)) t h = cc
type_is_given (some (str s)) delivery_picked_up h = ground (arith, eq_iff s "DELIVERY_PICKED_UP")
type_is_given (some (str s)) delivery_delivered h = ground (arith, eq_iff s "DELIVERY_DELIVERED")
type_is_given (some (str s)) delivery_failed h = ground (arith, eq_iff s "DELIVERY_FAILED")
type_is_given (some (str s)) delivery_cancelled h = ground (arith, eq_iff s "DELIVERY_CANCELLED")

type_is_fine :
    (o : Option ProviderWebhookEventType) (p d : String)
    → (note_if (not (is_some o)) p d).1 ≡ []
    → (t : ProviderWebhookEventType) × (o ≡ some t)
type_is_fine none p d h = cc
type_is_fine (some t) p d h = (t, refl)

delivery_stage_is : (v : Option Value) (s : FailureStage) → delivery_stage v ≡ some s → s ≡ delivery
unfolding delivery_stage
delivery_stage_is v s h = ground arith

explained_passes :
    (t : OrderStatus) (failure : Option FailureDetails)
    → ExplainedAs t failure
    → failure_for t failure ≡ ok tt
explained_passes OrderStatus.delivery_failed failure (f, e, k) = rw (e, k)
explained_passes submission_failed failure (f, e, k) = rw (e, k)
explained_passes t failure e = ground arith

module _ (to_iso : String → Option String) where
  abbrev details : Option Value → Checked (Option FailureDetails)
  details v = read_failure_fields to_iso delivery_stage "must be DELIVERY" (as_record v)

  details-ExplainedAs :
      (t : ProviderWebhookEventType) (v : Option Value)
      → (read_optional v details).1 ≡ []
      → (check_details_given (some t) (is_some v)).1 ≡ []
      → ExplainedAs (target_status t) (read_optional v details).0
  unfolding check_details_given target_status
  details-ExplainedAs delivery_failed none d g = cc
  details-ExplainedAs delivery_failed (some x) d g =
      let (f, v, e, k, _, _, _) =
        failure_is_fine to_iso delivery_stage "must be DELIVERY" (as_record (some x)) d in
      (f, e, delivery_stage_is v f.stage k)
  details-ExplainedAs t none d g = ground arith
  details-ExplainedAs t (some x) d g = ground arith

  details-FailureIn :
      (v : Option Value)
      → (read_optional v details).1 ≡ []
      → FailureIn to_iso v (read_optional v details).0
  details-FailureIn none d = refl
  details-FailureIn (some x) d =
      let (f, _, e, _, fields, given, inside) =
        failure_is_fine to_iso delivery_stage "must be DELIVERY" (as_record (some x)) d in
      let g = as_record-given (some x) fields given in (f, fields, e, cc, inside)

  event_is_given :
      {a c d : Option String} {b : Option ProviderWebhookEventType}
      {failure : Option FailureDetails} {id at order_id : String} {t : ProviderWebhookEventType}
      → a ≡ some id
      → b ≡ some t
      → c ≡ some at
      → d ≡ some order_id
      → event_of a b c d failure
        ≡ some (record {
          event_id = id;
          event_type = t;
          occurred_at = at;
          delivery_provider_order_id = order_id;
          failure = failure;
        })
  event_is_given e f g h = rw (e, f, g, h)

  event_is_fine :
      (fields : Fields)
      → (read_event to_iso fields).1 ≡ []
      → (e : ProviderWebhookEvent) × ((read_event to_iso fields).0 ≡ some e)
        × IsExplained to_iso fields e
  unfolding read_event
  event_is_fine fields h =
      let (_, g) = no_issues_joined _ _ h in
      let (a, g) = no_issues_joined _ _ g in
      let (b, g) = no_issues_joined _ _ g in
      let (c, g) = no_issues_joined _ _ g in
      let (d, g) = no_issues_joined _ _ g in
      let (e, g) = no_issues_joined _ _ g in
      let (f, _) = no_issues_joined _ _ g in
      let found = supported_event_type (lookup "eventType" fields) in
      let (id, ea, la, fa) = text_is_fine _ _ _ _ _ a in
      let (t, eb) = type_is_fine found "#/eventType" "must be a supported delivery event type" b in
      let (given, at, y, n, ec) = timestamp_is_fine to_iso _ _ c in
      let (order_id, ed, ld, _) = text_is_fine _ _ _ _ _ d in
      let given_for : (check_details_given (some t) (is_some (lookup "failure" fields))).1 ≡ [] =
        subst (λ o. (check_details_given o (is_some (lookup "failure" fields))).1 ≡ []) eb f in
      (
        record {
          event_id = id;
          event_type = t;
          occurred_at = at;
          delivery_provider_order_id = order_id;
          failure = (read_optional (lookup "failure" fields) details).0;
        },
        event_is_given ea eb ec ed,
        record {
          event_id = as_text-given (lookup "eventId" fields) id ea;
          event_id_length = la;
          event_id_form = fa;
          event_type = type_is_given (lookup "eventType" fields) t eb;
          given_at = given;
          occurred_at = y;
          normalized = n;
          provider_order_id = as_text-given (lookup "deliveryProviderOrderId" fields) order_id ed;
          provider_order_id_length = ld;
          failure = details-FailureIn (lookup "failure" fields) e;
          explained = details-ExplainedAs t (lookup "failure" fields) e given_for;
        },
      )

  fields_are_fine :
      (body : Value) (given : Option Fields) (e : ProviderWebhookEvent)
      → as_record (some body) ≡ given
      → validate_event_fields to_iso given ≡ valid e
      → (fields : Fields) × (body ≡ obj fields) × IsExplained to_iso fields e
  unfolding validate_event_fields
  fields_are_fine body none e r h = cc
  fields_are_fine body (some fields) e r h =
      let (i, f) = valid_result _ _ e h in
      let (q, g, a) = event_is_fine fields i in
      let b = as_record-given (some body) fields r in
      (fields, cc, subst (IsExplained to_iso fields) (cc) a)

  -- The body of an event that passes the validation is an object, and the event has the id, the type
  -- and the provider's order id that the object gives, with the documented lengths, and the
  -- normalized form of the time it gives. It has the failure details that the object gives, at the
  -- normalized form of their own time; and it has details exactly when the status that it leads to
  -- asks for them, and then of the delivery stage, so that the domain never refuses its change for
  -- its details.
  pub validated_event-IsExplained :
      (body : Value) (e : ProviderWebhookEvent)
      → validate_provider_webhook_event to_iso body ≡ valid e
      → (fields : Fields) × (body ≡ obj fields)
        × IsExplained to_iso fields e
        × (validate_failure (to_status_change e) ≡ ok tt)
  unfolding validate_failure to_status_change
  validated_event-IsExplained body e h =
      let (fields, b, x) = fields_are_fine body (as_record (some body)) e refl h in
      (fields, b, x, explained_passes (target_status e.event_type) e.failure x.explained)
