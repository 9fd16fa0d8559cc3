-- ===== src/App/Validation.antt =====
-- What the validators of request bodies share (src/application/create-order-validation.ts,
-- change-order-status-validation.ts and provider-webhook-validation.ts each have a copy): reading
-- a value and noting, in order, the issues that are found.
pub mod Reads
pub mod CreateOrder
pub mod Failure
pub mod ChangeStatus
pub mod ProviderWebhook
use Prim.Native.String.{◌++◌ as str_append}
use serverless_order_integra.Base.{
  ℕ, ℤ, String, str_eq, str_length, ◌≡◌, refl, Bool, true, false, not, ◌||◌, Option, none, some,
  List, [], ◌∷◌, ◌++◌, ltb, if◌then◌else◌, is_between, is_within,
}
use serverless_order_integra.Json.{
  Value, num, int, Fields, end_of_object, field, as_text, max_safe_integer,
}
use serverless_order_integra.Json.Text.{decimal}

-- `ValidationIssue` (src/http/problem-details.ts)
pub record ValidationIssue : Type 0 where
  pub pointer : String
  pub detail : String

pub data ValidationResult (A : Type 0) : Type 0 where
  valid : A → ValidationResult A
  invalid : List ValidationIssue → ValidationResult A

-- A value, and the issues that are pushed while it is read.
abbrev pub Checked : Type 0 → Type 0
Checked A = A × List ValidationIssue

abbrev pub pure : {A : Type 0} → A → Checked A
pure a = (a, [])

-- The issues found first, then those found later.
unfoldable pub joined : List ValidationIssue → List ValidationIssue → List ValidationIssue
joined earlier later = earlier ++ later

infixl 5 ◌>>=◌ ◌>>◌
abbrev pub ◌>>=◌ : {A B : Type 0} → Checked A → (A → Checked B) → Checked B
m >>= f = ((f m.0).0, joined m.1 (f m.0).1)

abbrev pub ◌>>◌ : {B : Type 0} → Checked (Unit {0}) → Checked B → Checked B
m >> k = m >>= λ _. k

abbrev pub issue : String → String → List ValidationIssue
issue pointer detail = record { pointer = pointer; detail = detail } ∷ []

-- `if (found) issues.push({ pointer, detail })`
abbrev pub note_if : Bool → String → String → Checked (Unit {0})
note_if found pointer detail = (tt, if found then issue pointer detail else [])

abbrev pub is_allowed : String → List String → Bool
is_allowed name [] = false
is_allowed name (n ∷ ns) = str_eq n name || is_allowed name ns

unfoldable pub unknown_fields : Fields → List String → String → List ValidationIssue
unknown_fields end_of_object allowed pointer = []
unknown_fields (field name value rest) allowed pointer =
    (if is_allowed name allowed
      then []
      else issue (str_append pointer (str_append "/" name)) "is not allowed")
    ++ unknown_fields rest allowed pointer

abbrev pub add_unknown_field_issues : Fields → List String → String → Checked (Unit {0})
add_unknown_field_issues value allowed pointer = (tt, unknown_fields value allowed pointer)

abbrev between_text : String → ℕ → ℕ → String
between_text start minimum maximum =
    str_append start (str_append (decimal minimum) (str_append " and " (decimal maximum)))

unfoldable pub text_issues :
    Option String
    → String
    → (minimum_length maximum_length : ℕ) → (pattern : String → Bool) → List ValidationIssue
text_issues none pointer minimum maximum pattern = issue pointer "must be a string"
text_issues (some s) pointer minimum maximum pattern =
    if ltb (str_length s) minimum || ltb maximum (str_length s)
    then issue pointer (between_text "length must be between " minimum maximum)
    else if not (pattern s)
    then issue pointer "has an invalid format"
    else []

-- Without a pattern every text passes.
abbrev pub any_text : String → Bool
any_text s = true

abbrev pub read_string :
    Option Value
    → String
    → (minimum_length maximum_length : ℕ) → (pattern : String → Bool) → Checked (Option String)
read_string value pointer minimum maximum pattern =
    (as_text value, text_issues (as_text value) pointer minimum maximum pattern)

-- `Number.isSafeInteger(value)`
abbrev pub as_safe_integer : Option Value → Option ℤ
as_safe_integer (some (num (int z))) = if is_within max_safe_integer z then some z else none
as_safe_integer _ = none

unfoldable pub integer_issues : Option ℤ → String → (minimum maximum : ℕ) → List ValidationIssue
integer_issues none pointer minimum maximum = issue pointer "must be a safe integer"
integer_issues (some z) pointer minimum maximum =
    if is_between minimum maximum z
    then []
    else issue pointer (between_text "must be between " minimum maximum)

abbrev pub read_integer : Option Value → String → (minimum maximum : ℕ) → Checked (Option ℤ)
read_integer value pointer minimum maximum =
    (as_safe_integer value, integer_issues (as_safe_integer value) pointer minimum maximum)

-- `issues.length > 0 || value === undefined ? invalid : valid`
unfoldable pub result_of : {A : Type 0} → Option A → List ValidationIssue → ValidationResult A
result_of none issues = invalid issues
result_of (some a) [] = valid a
result_of (some a) (i ∷ is) = invalid (i ∷ is)

pub no_issues_joined : (xs ys : List ValidationIssue) → joined xs ys ≡ [] → (xs ≡ []) × (ys ≡ [])
unfolding joined
no_issues_joined [] ys h = (refl, h)
no_issues_joined (x ∷ xs) ys h = cc

-- No issue is noted where a test was to hold.
pub no_issue_noted :
    (c : Bool) (xs is : List ValidationIssue) (i : ValidationIssue)
    → (if c then xs else (i ∷ is)) ≡ []
    → (c ≡ true) × (xs ≡ [])
no_issue_noted true xs is i h = (refl, h)
no_issue_noted false xs is i h = cc
