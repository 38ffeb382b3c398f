-- ===== src/Api/Middlewares/Attempts.antt =====
-- What the retries of a handler end with.
use krake.Prelude.{ℕ, zero, suc, ◌≡◌, refl}
use krake.Api.Middlewares.{
  Ending, response, transaction_error, raised, Retried, answered, reraised, conflict, attempt,
  retry_transaction,
}

module _ {State R : Type 0} (handler : State → Ending R × State) where
  -- So many attempts in a row that end with TransactionError.
  pub data Fails : ℕ → State → State → Type 0 where
    no_attempt : {s : State} → Fails 0 s s
    failed :
        {n : ℕ} {s t u : State}
        → handler s ≡ (transaction_error, t)
        → Fails n t u
        → Fails (suc n) s u

  -- Some attempt, after fewer than `n` that failed, ends as `ending`.
  pub data EndsWithin (ending : Ending R) : ℕ → State → State → Type 0 where
    at_once : {n : ℕ} {s t : State} → handler s ≡ (ending, t) → EndsWithin ending (suc n) s t
    after_failure :
        {n : ℕ} {s t u : State}
        → handler s ≡ (transaction_error, t)
        → EndsWithin ending n t u
        → EndsWithin ending (suc n) s u

  -- What an answer says of the attempts.
  abbrev pub Explained : ℕ → State → Retried R × State → Type 0
  Explained n s (answered r, t) = EndsWithin (response r) n s t
  Explained n s (reraised e, t) = EndsWithin (raised e) n s t
  Explained n s (conflict, t) = Fails n s t

  later :
      (n : ℕ) (s t : State) (answer : Retried R × State)
      → handler s ≡ (transaction_error, t)
      → Explained n t answer
      → Explained (suc n) s answer
  later n s t (answered r, u) failing h = after_failure failing h
  later n s t (reraised e, u) failing h = after_failure failing h
  later n s t (conflict, u) failing h = failed failing h

  attempted :
      (n : ℕ) (s : State) (result : Ending R × State)
      → ((t : State) → Explained n t (attempt handler n t))
      → handler s ≡ result
      → Explained (suc n) s (elim result.0 [
        | response r ↦ (answered r, result.1)
        | transaction_error ↦ attempt handler n result.1
        | raised e ↦ (reraised e, result.1)
      ])
  attempted n s (response r, t) rest h = at_once h
  attempted n s (transaction_error, t) rest h = later n s t (attempt handler n t) h (rest t)
  attempted n s (raised e, t) rest h = at_once h

  attempt-Explained : (n : ℕ) (s : State) → Explained n s (attempt handler n s)
  unfolding attempt
  attempt-Explained zero s = no_attempt
  attempt-Explained (suc n) s = attempted n s (handler s) (λ t. attempt-Explained n t) refl

  -- A response, or an exception other than TransactionError, is that of the first attempt that
  -- does not end with TransactionError, which comes after at most `retry` attempts that did; the
  -- answer is a conflict only if all of the `retry + 1` attempts ended with TransactionError.
  pub retry_transaction-Explained :
      (retry : ℕ) (s : State) → Explained (suc retry) s (retry_transaction handler retry s)
  unfolding retry_transaction
  retry_transaction-Explained retry s = attempt-Explained (suc retry) s
