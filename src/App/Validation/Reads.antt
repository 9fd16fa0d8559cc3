-- ===== src/App/Validation/Reads.antt =====
-- What the readers of src/application/create-order-validation.ts have read when they note no issue.
use serverless_order_integra.Base.{
  ℕ, ◌≤◌, ℤ, pos, negsuc, String, str_length, ◌≡◌, refl, Bool, true, Option, none, some, List, [],
  ◌∷◌, arith,
}
use serverless_order_integra.Json.{
  Value, null, bool, num, str, arr, obj, Fields, as_text, as_record,
}
use serverless_order_integra.App.Validation.{
  ValidationIssue, valid, text_issues, integer_issues, result_of,
}

abbrev pub HasLength : ℕ → ℕ → String → Type 0
HasLength minimum maximum s = (minimum ≤ str_length s) × (str_length s ≤ maximum)

pub text_is_fine :
    (o : Option String) (p : String) (minimum maximum : ℕ) (pattern : String → Bool)
    → text_issues o p minimum maximum pattern ≡ []
    → (s : String) × (o ≡ some s) × HasLength minimum maximum s × (pattern s ≡ true)
unfolding text_issues
text_is_fine none p minimum maximum pattern h = cc
text_is_fine (some s) p minimum maximum pattern h = (s, refl, ground arith, ground arith)

pub as_text-given : (v : Option Value) (s : String) → as_text v ≡ some s → v ≡ some (str s)
as_text-given none s h = cc
as_text-given (some null) s h = cc
as_text-given (some (bool b)) s h = cc
as_text-given (some (num n)) s h = cc
as_text-given (some (str x)) s h = cc
as_text-given (some (arr is)) s h = cc
as_text-given (some (obj fs)) s h = cc

pub as_record-given : (v : Option Value) (fs : Fields) → as_record v ≡ some fs → v ≡ some (obj fs)
as_record-given none fs h = cc
as_record-given (some null) fs h = cc
as_record-given (some (bool b)) fs h = cc
as_record-given (some (num n)) fs h = cc
as_record-given (some (str x)) fs h = cc
as_record-given (some (arr is)) fs h = cc
as_record-given (some (obj gs)) fs h = cc

pub integer_is_fine :
    (o : Option ℤ) (p : String) (minimum maximum : ℕ)
    → integer_issues o p minimum maximum ≡ []
    → (n : ℕ) × (o ≡ some (pos n)) × (minimum ≤ n) × (n ≤ maximum)
unfolding integer_issues
integer_is_fine none p minimum maximum h = cc
integer_is_fine (some (pos n)) p minimum maximum h = (n, refl, ground arith, ground arith)
integer_is_fine (some (negsuc n)) p minimum maximum h = cc

pub valid_result :
    {A : Type 0} (o : Option A) (is : List ValidationIssue) (a : A)
    → result_of o is ≡ valid a
    → (is ≡ []) × (o ≡ some a)
unfolding result_of
valid_result none is a h = cc
valid_result (some b) [] a h = (refl, cc)
valid_result (some b) (i ∷ is) a h = cc
