-- ===== src/App/Validation/Failure/Reads.antt =====
-- What the readers of a timestamp and of failure details have read when they note no issue.
use serverless_order_integra.Base.{String, ◌≡◌, refl, not, Option, none, some, is_some, []}
use serverless_order_integra.Domain.Order.{FailureStage, FailureDetails}
use serverless_order_integra.Json.{Value, str, Fields, lookup}
use serverless_order_integra.App.Validation.{no_issues_joined, note_if}
use serverless_order_integra.App.Validation.Reads.{text_is_fine, as_text-given}
use serverless_order_integra.App.Validation.Failure.{
  failure_of, normalized, timestamp_of, read_timestamp, read_failure_fields,
}

-- Failure details that an object gives, at a normalized time.
pub record IsFailureIn (to_iso : String → Option String) (fields : Fields) (f : FailureDetails)
    : Type 0 where
  pub reason_code : lookup "reasonCode" fields ≡ some (str f.reason_code)
  pub summary : lookup "summary" fields ≡ some (str f.summary)
  pub given_at : String
  pub occurred_at : lookup "occurredAt" fields ≡ some (str given_at)
  pub normalized : to_iso given_at ≡ some f.occurred_at

module _ (to_iso : String → Option String) where
  normalized_is_fine :
      (p : String) (o : Option String)
      → (normalized to_iso p o).1 ≡ []
      → (t : String) × (o ≡ some t) × ((normalized to_iso p o).0 ≡ some t)
  normalized_is_fine p none h = cc
  normalized_is_fine p (some t) h = (t, refl, refl)

  timestamp_is_normal :
      (p s : String) (o : Option String)
      → o ≡ some s
      → (timestamp_of to_iso p o).1 ≡ []
      → (t : String) × (to_iso s ≡ some t) × ((timestamp_of to_iso p o).0 ≡ some t)
  timestamp_is_normal p s none e h = cc
  timestamp_is_normal p s (some x) e h =
      let (t, a, b) = normalized_is_fine p (to_iso x) h in (t, cc, b)

  pub timestamp_is_fine :
      (v : Option Value) (p : String)
      → (read_timestamp to_iso v p).1 ≡ []
      → (s : String) × (t : String) × (v ≡ some (str s))
        × (to_iso s ≡ some t)
        × ((read_timestamp to_iso v p).0 ≡ some t)
  unfolding read_timestamp
  timestamp_is_fine v p h =
      let (a, b) = no_issues_joined _ _ h in
      let (s, e, _, _) = text_is_fine _ _ _ _ _ a in
      let (t, f, g) = timestamp_is_normal p s _ e b in (s, t, as_text-given v s e, f, g)

  stage_is_fine :
      (o : Option FailureStage) (p d : String)
      → (note_if (not (is_some o)) p d).1 ≡ []
      → (st : FailureStage) × (o ≡ some st)
  stage_is_fine none p d h = cc
  stage_is_fine (some st) p d h = (st, refl)

  failure_is_given :
      {a : Option FailureStage} {b c d : Option String} {st : FailureStage} {r s t : String}
      → a ≡ some st
      → b ≡ some r
      → c ≡ some s
      → d ≡ some t
      → failure_of a b c d
        ≡ some (record { stage = st; reason_code = r; summary = s; occurred_at = t })
  failure_is_given e f g h = rw (e, f, g, h)

  -- Failure details of a stage that is allowed.
  pub failure_is_fine :
      (stage_of : Option Value → Option FailureStage) (detail : String) (fields : Option Fields)
      → (read_failure_fields to_iso stage_of detail fields).1 ≡ []
      → (f : FailureDetails) × (v : Option Value) × ((read_failure_fields to_iso stage_of detail
            fields).0
          ≡ some f)
        × (stage_of v ≡ some f.stage)
        × (given : Fields) × (fields ≡ some given)
        × IsFailureIn to_iso given f
  unfolding read_failure_fields
  failure_is_fine stage_of detail none h = cc
  failure_is_fine stage_of detail (some fields) h =
      let (_, g) = no_issues_joined _ _ h in
      let (a, g) = no_issues_joined _ _ g in
      let (b, g) = no_issues_joined _ _ g in
      let (c, g) = no_issues_joined _ _ g in
      let (d, _) = no_issues_joined _ _ g in
      let (st, ea) = stage_is_fine (stage_of (lookup "stage" fields)) "#/failure/stage" detail a in
      let (r, eb, _, _) = text_is_fine _ _ _ _ _ b in
      let (s, ec, _, _) = text_is_fine _ _ _ _ _ c in
      let (x, t, y, z, ed) = timestamp_is_fine _ _ d in
      (
        record { stage = st; reason_code = r; summary = s; occurred_at = t },
        lookup "stage" fields,
        failure_is_given ea eb ec ed,
        ea,
        fields,
        refl,
        record {
          reason_code = as_text-given (lookup "reasonCode" fields) r eb;
          summary = as_text-given (lookup "summary" fields) s ec;
          given_at = x;
          occurred_at = y;
          normalized = z;
        },
      )
