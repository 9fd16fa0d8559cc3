-- ===== src/Client/IdempotentOperation.antt =====
-- src/client/idempotent-operation.ts: a request that is sent again under one key until its outcome
-- is known. `structuredClone` and `Object.freeze` give a value that is equal to the request, so
-- the snapshot is the request itself.
pub mod Retries
use Prim.Native.String.{◌++◌ as str_append}
use serverless_order_integra.Base.{
  ℕ, ◌+◌, ◌==◌, String, str_eq, str_length, Bool, true, false, not, ◌||◌, Result, ok, err, ◌>>◌,
  guard,
}
use serverless_order_integra.Domain.Errors.{AppError, plain_error}

-- `IDEMPOTENT_OPERATION_STATES`
pub data OperationState : Type 0 where
  ready in_flight outcome_unknown succeeded rejected : OperationState

abbrev pub state_text : OperationState → String
state_text ready = "READY"
state_text in_flight = "IN_FLIGHT"
state_text outcome_unknown = "OUTCOME_UNKNOWN"
state_text succeeded = "SUCCEEDED"
state_text rejected = "REJECTED"

pub record IdempotentOperation {ℓ} (Request : Type ℓ) : Type ℓ where
  pub idempotency_key : String
  pub request : Request
  pub request_fingerprint : String
  pub state : OperationState
  pub attempt_count : ℕ

-- The states that `markIdempotentOperationOutcome` takes.
pub data Outcome : Type 0 where
  unknown success rejection : Outcome

abbrev pub outcome_state : Outcome → OperationState
outcome_state unknown = outcome_unknown
outcome_state success = succeeded
outcome_state rejection = rejected

abbrev pub is_startable : OperationState → Bool
is_startable ready = true
is_startable outcome_unknown = true
is_startable in_flight = false
is_startable succeeded = false
is_startable rejected = false

abbrev pub is_in_flight : OperationState → Bool
is_in_flight in_flight = true
is_in_flight ready = false
is_in_flight outcome_unknown = false
is_in_flight succeeded = false
is_in_flight rejected = false

-- `An operation in ${state} …`
abbrev pub refused_in : OperationState → String → AppError
refused_in state what =
    plain_error (str_append "An operation in " (str_append (state_text state) what))

module _ {ℓ} {Request : Type ℓ} where
  unfoldable pub create_idempotent_operation :
      String → Request → String → Result AppError (IdempotentOperation Request)
  create_idempotent_operation key request fingerprint =
      guard (not (str_length key == 0 || str_length fingerprint == 0))
        (plain_error "An idempotent operation requires a key and request fingerprint.")
      >> ok (record {
        idempotency_key = key;
        request = request;
        request_fingerprint = fingerprint;
        state = ready;
        attempt_count = 0;
      })

  unfoldable pub begin_attempt :
      IdempotentOperation Request → String → Result AppError (IdempotentOperation Request)
  begin_attempt operation fingerprint =
      guard (str_eq operation.request_fingerprint fingerprint)
        (plain_error "A retry cannot change the request associated with its idempotency key.")
      >> guard (is_startable operation.state)
          (refused_in operation.state " cannot start another attempt.")
      >> ok (record {
        idempotency_key = operation.idempotency_key;
        request = operation.request;
        request_fingerprint = operation.request_fingerprint;
        state = in_flight;
        attempt_count = operation.attempt_count + 1;
      })

  unfoldable pub mark_outcome :
      IdempotentOperation Request → Outcome → Result AppError (IdempotentOperation Request)
  mark_outcome operation outcome =
      guard (is_in_flight operation.state)
        (refused_in operation.state " cannot record an attempt outcome.")
      >> ok (record {
        idempotency_key = operation.idempotency_key;
        request = operation.request;
        request_fingerprint = operation.request_fingerprint;
        state = outcome_state outcome;
        attempt_count = operation.attempt_count;
      })
