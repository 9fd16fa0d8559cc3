-- ===== src/Tests/Retries.antt =====
-- The result on repeated attempts, at a payment that is sent twice.
use serverless_order_integra.Base.{ℕ, ◌≡◌, ◌⊎◌, refl, true, false, List, [], ◌∷◌, ok, str_length}
use serverless_order_integra.Client.IdempotentOperation.{
  ready, IdempotentOperation, unknown, success, create_idempotent_operation, begin_attempt,
  mark_outcome,
}
use serverless_order_integra.Client.IdempotentOperation.Retries.{
  ClientCall, begin, mark, is_settled, perform, kept, after, starts, started, retries_keep_request,
}

abbrev operation : IdempotentOperation ℕ
operation = record {
  idempotency_key = "key-1";
  request = 1500;
  request_fingerprint = "print-1";
  state = ready;
  attempt_count = 0;
}

-- The first attempt's answer is lost, a retry for another request is refused, the next succeeds.
abbrev attempts : List ClientCall
attempts = begin "print-1" ∷ mark unknown ∷ begin "print-2" ∷ begin "print-1" ∷ mark success ∷ []

abbrev another : List ClientCall
another = begin "print-1" ∷ mark unknown ∷ []

created : create_idempotent_operation "key-1" 1500 "print-1" ≡ ok operation
unfolding create_idempotent_operation str_length
created = refl

two_attempts : started operation attempts ≡ 2
unfolding started starts perform kept begin_attempt mark_outcome
two_attempts = refl

is_settled_then : is_settled (after operation attempts).state ≡ true
unfolding after perform kept begin_attempt mark_outcome
is_settled_then = refl

retries_keep_request_example :
    ((after operation attempts).idempotency_key ≡ "key-1")
    × ((after operation attempts).request ≡ 1500)
    × ((after operation attempts).request_fingerprint ≡ "print-1")
    × ((after operation attempts).attempt_count ≡ started operation attempts)
    × ((is_settled (after operation attempts).state ≡ false)
        ⊎ (after (after operation attempts) another ≡ after operation attempts))
retries_keep_request_example =
    retries_keep_request "key-1" 1500 "print-1" operation attempts another created
