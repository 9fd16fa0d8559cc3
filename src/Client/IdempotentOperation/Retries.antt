-- ===== src/Client/IdempotentOperation/Retries.antt =====
-- What a caller's attempts leave as it was, whatever it calls in whatever order.
use serverless_order_integra.Base.{
  ℕ, ◌+◌, String, str_eq, str_length, ◌==◌, ◌≡◌, ◌⊎◌, Bool, true, false, ◌||◌, List, [], ◌∷◌,
  Result, ok, err, arith, inl, inr, Bool-cases, refl, ◌∙◌,
}
use serverless_order_integra.Domain.Errors.{AppError}
use serverless_order_integra.Client.IdempotentOperation.{
  OperationState, ready, in_flight, outcome_unknown, succeeded, rejected, IdempotentOperation,
  Outcome, create_idempotent_operation, begin_attempt, mark_outcome, is_startable, is_in_flight,
}

-- A call of one of the two operations, with its other argument.
pub data ClientCall : Type 0 where
  begin : (fingerprint : String) → ClientCall
  mark : Outcome → ClientCall

abbrev pub is_settled : OperationState → Bool
is_settled succeeded = true
is_settled rejected = true
is_settled ready = false
is_settled in_flight = false
is_settled outcome_unknown = false

settled_cannot_start :
    (s : OperationState) → is_settled s ≡ true → (is_startable s ≡ false) × (is_in_flight s ≡ false)
settled_cannot_start ready h = cc
settled_cannot_start in_flight h = cc
settled_cannot_start outcome_unknown h = cc
settled_cannot_start succeeded h = (refl, refl)
settled_cannot_start rejected h = (refl, refl)

module _ {ℓ} {Request : Type ℓ} where
  unfoldable pub perform :
      IdempotentOperation Request → ClientCall → Result AppError (IdempotentOperation Request)
  perform operation (begin fingerprint) = begin_attempt operation fingerprint
  perform operation (mark outcome) = mark_outcome operation outcome

  -- The operation a caller has then: a call that throws returns none.
  unfoldable pub kept :
      IdempotentOperation Request
      → Result AppError (IdempotentOperation Request)
      → IdempotentOperation Request
  kept operation (ok next) = next
  kept operation (err thrown) = operation

  unfoldable pub after : IdempotentOperation Request → List ClientCall → IdempotentOperation Request
  after operation [] = operation
  after operation (call ∷ calls) = after (kept operation (perform operation call)) calls

  -- How many attempts a call starts.
  unfoldable pub starts : ClientCall → Result AppError (IdempotentOperation Request) → ℕ
  starts (begin fingerprint) (ok next) = 1
  starts (begin fingerprint) (err thrown) = 0
  starts (mark outcome) _ = 0

  unfoldable pub started : IdempotentOperation Request → List ClientCall → ℕ
  started operation [] = 0
  started operation (call ∷ calls) =
      starts call (perform operation call) + started (kept operation (perform operation call)) calls

  -- What no call changes, with the attempts that were started on the way.
  pub record IsRetryOf (operation later : IdempotentOperation Request) (attempts : ℕ) : Type ℓ where
    pub same_key : later.idempotency_key ≡ operation.idempotency_key
    pub same_request : later.request ≡ operation.request
    pub same_fingerprint : later.request_fingerprint ≡ operation.request_fingerprint
    pub counted : later.attempt_count ≡ operation.attempt_count + attempts

  begin-IsRetryOf :
      (operation : IdempotentOperation Request) (fingerprint : String)
      → IsRetryOf operation
          (kept operation (begin_attempt operation fingerprint))
          (starts (begin fingerprint) (begin_attempt operation fingerprint))
  unfolding begin_attempt kept starts
  begin-IsRetryOf operation fingerprint =
      elim (Bool-cases (str_eq operation.request_fingerprint fingerprint)) [
        | inr n ↦ rw (n) (record {
          same_key = refl;
          same_request = refl;
          same_fingerprint = refl;
          counted = omega arith;
        })
        | inl y ↦ elim (Bool-cases (is_startable operation.state)) [
          | inr n ↦
              rw (y, n)
                (record {
                  same_key = refl;
                  same_request = refl;
                  same_fingerprint = refl;
                  counted = omega arith;
                })
          | inl s ↦
              rw (y, s)
                (record {
                  same_key = refl;
                  same_request = refl;
                  same_fingerprint = refl;
                  counted = refl;
                })
        ]
      ]

  mark-IsRetryOf :
      (operation : IdempotentOperation Request) (outcome : Outcome)
      → IsRetryOf operation (kept operation (mark_outcome operation outcome)) 0
  unfolding mark_outcome kept
  mark-IsRetryOf operation outcome = elim (Bool-cases (is_in_flight operation.state)) [
    | inr n ↦ rw (n) (record {
      same_key = refl;
      same_request = refl;
      same_fingerprint = refl;
      counted = omega arith;
    })
    | inl s ↦ rw (s) (record {
      same_key = refl;
      same_request = refl;
      same_fingerprint = refl;
      counted = omega arith;
    })
  ]

  call-IsRetryOf :
      (operation : IdempotentOperation Request) (call : ClientCall)
      → IsRetryOf operation
          (kept operation (perform operation call))
          (starts call (perform operation call))
  unfolding perform starts
  call-IsRetryOf operation (begin fingerprint) = begin-IsRetryOf operation fingerprint
  call-IsRetryOf operation (mark outcome) = mark-IsRetryOf operation outcome

  then_retry :
      (operation next later : IdempotentOperation Request) (m n : ℕ)
      → IsRetryOf operation next m
      → IsRetryOf next later n
      → IsRetryOf operation later (m + n)
  then_retry operation next later m n first rest = record {
    same_key = rest.same_key ∙ first.same_key;
    same_request = rest.same_request ∙ first.same_request;
    same_fingerprint = rest.same_fingerprint ∙ first.same_fingerprint;
    counted = let a = first.counted in let b = rest.counted in omega arith;
  }

  after-IsRetryOf :
      (operation : IdempotentOperation Request) (calls : List ClientCall)
      → IsRetryOf operation (after operation calls) (started operation calls)
  unfolding after started
  after-IsRetryOf operation [] = record {
    same_key = refl;
    same_request = refl;
    same_fingerprint = refl;
    counted = omega arith;
  }
  after-IsRetryOf operation (call ∷ calls) =
      let next = kept operation (perform operation call) in
      then_retry operation next (after next calls) (starts call (perform operation call))
        (started next calls) (call-IsRetryOf operation call) (after-IsRetryOf next calls)

  settled_refuses :
      (operation : IdempotentOperation Request) (call : ClientCall)
      → is_settled operation.state ≡ true
      → kept operation (perform operation call) ≡ operation
  unfolding perform begin_attempt mark_outcome kept
  settled_refuses operation (begin fingerprint) h =
      let stopped = (settled_cannot_start operation.state h).0 in
      elim (Bool-cases (str_eq operation.request_fingerprint fingerprint)) [
        | inr n ↦ rw (n)
        | inl y ↦ rw (y, stopped)
      ]
  settled_refuses operation (mark outcome) h = rw ((settled_cannot_start operation.state h).1)

  settled_stays :
      (operation : IdempotentOperation Request) (calls : List ClientCall)
      → is_settled operation.state ≡ true
      → after operation calls ≡ operation
  unfolding after
  settled_stays operation [] h = refl
  settled_stays operation (call ∷ calls) h =
      rw (settled_refuses operation call h) (settled_stays operation calls h)

  created_is :
      (key : String) (request : Request) (fingerprint : String)
      (operation : IdempotentOperation Request)
      → create_idempotent_operation key request fingerprint ≡ ok operation
      → (operation.idempotency_key ≡ key)
        × (operation.request ≡ request)
        × (operation.request_fingerprint ≡ fingerprint)
        × (operation.attempt_count ≡ 0)
  unfolding create_idempotent_operation
  created_is key request fingerprint operation h =
      elim (Bool-cases (str_length key == 0 || str_length fingerprint == 0)) [
        | inl y ↦ let g = rw (y) at h in cc
        | inr n ↦ let g = rw (n) at h in (cc, cc, cc, cc)
      ]

  -- Whatever a caller does with an operation it created, the operation keeps its key, request and
  -- fingerprint and counts the attempts that were started; and once its outcome is a success or a
  -- rejection, no further call changes it, so no further attempt starts.
  pub retries_keep_request :
      (key : String) (request : Request) (fingerprint : String)
      (operation : IdempotentOperation Request) (calls more : List ClientCall)
      → create_idempotent_operation key request fingerprint ≡ ok operation
      → let later = after operation calls in
        (later.idempotency_key ≡ key)
        × (later.request ≡ request)
        × (later.request_fingerprint ≡ fingerprint)
        × (later.attempt_count ≡ started operation calls)
        × ((is_settled later.state ≡ false) ⊎ (after later more ≡ later))
  retries_keep_request key request fingerprint operation calls more h =
      let (k, r, f, z) = created_is key request fingerprint operation h in
      let t = after-IsRetryOf operation calls in
      let later = after operation calls in
      let counted = t.counted in
      (
        t.same_key ∙ k,
        t.same_request ∙ r,
        t.same_fingerprint ∙ f,
        omega arith,
        elim (Bool-cases (is_settled later.state)) [
          | inl y ↦ inr (settled_stays later more y)
          | inr n ↦ inl n
        ],
      )
