-- ===== src/App/Validation/Failure.antt =====
-- The readers of a timestamp and of failure details, which
-- src/application/change-order-status-validation.ts and provider-webhook-validation.ts share but for
-- the stages that they allow. `to_iso` is `new Date(text).toISOString()`, `none` where it throws.
pub mod Reads
use Prim.Native.Char.{code}
use Prim.Native.String.{◌++◌ as str_append}
use serverless_order_integra.Base.{
  ℕ, ◌==◌, String, ◌≡◌, refl, Bool, true, false, not, ◌&&◌, ◌||◌, Option, none, some, List, [], ◌∷◌,
  leb, is_some, Bool-cases, inl, inr,
}
use serverless_order_integra.Domain.Order.{FailureStage, FailureDetails}
use serverless_order_integra.Json.{Value, Fields, lookup, as_record}
use serverless_order_integra.App.Validation.{
  Checked, pure, ◌>>=◌, ◌>>◌, issue, note_if, add_unknown_field_issues, any_text, read_string,
  no_issues_joined,
}

abbrev is_capital : ℕ → Bool
is_capital c = leb 65 c && leb c 90

abbrev all_code_characters : String → Bool
all_code_characters String.[] = true
all_code_characters (String.◌∷◌ c s) =
    (is_capital (code c) || (leb 48 (code c) && leb (code c) 57) || code c == 95)
    && all_code_characters s

-- `/^[A-Z][A-Z0-9_]*$/`
unfoldable pub reason_code_pattern : String → Bool
reason_code_pattern String.[] = false
reason_code_pattern (String.◌∷◌ c s) = is_capital (code c) && all_code_characters s

abbrev pub failure_names : List String
failure_names = "stage" ∷ "reasonCode" ∷ "summary" ∷ "occurredAt" ∷ []

abbrev pub failure_of :
    Option FailureStage → Option String → Option String → Option String → Option FailureDetails
failure_of (some stage) (some reason) (some summary) (some at) =
    some (record { stage = stage; reason_code = reason; summary = summary; occurred_at = at })
failure_of _ _ _ _ = none

module _ (to_iso : String → Option String) where
  abbrev pub normalized : String → Option String → Checked (Option String)
  normalized pointer none = (none, issue pointer "must be a valid date-time")
  normalized pointer (some at) = pure (some at)

  abbrev pub timestamp_of : String → Option String → Checked (Option String)
  timestamp_of pointer none = pure none
  timestamp_of pointer (some text) = normalized pointer (to_iso text)

  unfoldable pub read_timestamp : Option Value → String → Checked (Option String)
  read_timestamp value pointer = do
    text ← read_string value pointer 1 50 any_text
    timestamp_of pointer text

  -- `stage_of` and `stage_detail` are the stages that the file allows, and its words for them.
  unfoldable pub read_failure_fields :
      (stage_of : Option Value → Option FailureStage)
      → (stage_detail : String) → Option Fields
      → Checked (Option FailureDetails)
  read_failure_fields stage_of stage_detail none = (none, issue "#/failure" "must be an object")
  read_failure_fields stage_of stage_detail (some fields) = do
    add_unknown_field_issues fields failure_names "#/failure"
    note_if (not (is_some (stage_of (lookup "stage" fields)))) "#/failure/stage" stage_detail
    reason ←
        read_string (lookup "reasonCode" fields) "#/failure/reasonCode" 1 100 reason_code_pattern
    summary ← read_string (lookup "summary" fields) "#/failure/summary" 1 500 any_text
    at ← read_timestamp (lookup "occurredAt" fields) "#/failure/occurredAt"
    pure (failure_of (stage_of (lookup "stage" fields)) reason summary at)

-- `value === undefined ? undefined : read(value)`
abbrev pub read_optional :
    {A : Type 0} → Option Value → (Option Value → Checked (Option A)) → Checked (Option A)
read_optional none read = pure none
read_optional (some value) read = read (some value)
