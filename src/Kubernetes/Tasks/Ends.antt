-- ===== src/Kubernetes/Tasks/Ends.antt =====
-- What holds when a coroutine returns and when it throws.
use krake.Prelude.{◌≡◌, refl, Option, none, some}
use krake.Manifest.Results.{Error, Result, ok, raised}
use krake.Kubernetes.Tasks.{
  Exception, History, Reply, threw, returned, Task, continue, lift, required, answer,
}

-- `R` holds of the requests when a coroutine throws, and `Q` when it returns a value.
module _ {ℓ} {A : Type ℓ} (R : History → Type 0) where
  abbrev pub Ends : (A → History → Type 0) → Reply A × History → Type 0
  Ends Q (threw e, log) = R log
  Ends Q (returned a, log) = Q a log

  pub answer-Ends :
      (Q : A → History → Type 0) (o : Option Exception) (a : A) (log : History)
      → R log
      → Q a log
      → Ends Q (answer o a log)
  unfolding answer
  answer-Ends Q none a log r q = q
  answer-Ends Q (some e) a log r q = r

  pub lift-Ends :
      (Q : A → History → Type 0) (res : Result A) (log : History)
      → R log
      → ((a : A) → res ≡ ok a → Q a log)
      → Ends Q (lift res log)
  unfolding lift
  lift-Ends Q (ok a) log r q = q a refl
  lift-Ends Q (raised e) log r q = r

  pub required-Ends :
      (Q : A → History → Type 0) (e : Error) (o : Option A) (log : History)
      → R log
      → ((a : A) → Q a log)
      → Ends Q (required e o log)
  unfolding required
  required-Ends Q e none log r q = r
  required-Ends Q e (some a) log r q = q a

  pub weaken-Ends :
      (P Q : A → History → Type 0) (ended : Reply A × History)
      → Ends P ended
      → ((a : A) (log : History) → P a log → Q a log)
      → Ends Q ended
  weaken-Ends P Q (threw e, log) p f = p
  weaken-Ends P Q (returned a, log) p f = f a log p

module _ {ℓ κ} {A : Type ℓ} {B : Type κ} (R : History → Type 0) where
  pub continue-Ends :
      (P : A → History → Type 0) (Q : B → History → Type 0) (ended : Reply A × History)
      (next : A → Task B)
      → Ends R P ended
      → ((a : A) (log : History) → P a log → Ends R Q (next a log))
      → Ends R Q (continue ended next)
  unfolding continue
  continue-Ends P Q (threw e, log) next p f = p
  continue-Ends P Q (returned a, log) next p f = f a log p

-- What holds of the requests however the coroutine ends.
pub history-Ends {ℓ} :
    {A : Type ℓ} (R : History → Type 0) (ended : Reply A × History)
    → Ends R (λ _. R) ended
    → R ended.1
history-Ends R (threw e, log) h = h
history-Ends R (returned a, log) h = h
