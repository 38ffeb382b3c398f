-- ===== src/Retry/Batches/Refines.antt =====
-- The restarts of a task are those that its batches allow.
use native.Mathlib.Nat.{mod-eq_of_lt, mod_self}
use krake.Prelude.{
  ℕ, zero, suc, ◌+◌, ◌<◌, ◌≡◌, refl, ap, sym, inl, inr, false, Option, none, some, List, [], ◌∷◌,
  ◌++◌, arith,
}
use krake.Prelude.Tests.{if◌then◌else◌, nat_beq, nat_beq_iff, Bool-cases}
use krake.Prelude.Lists.{length, length-append}
use krake.Retry.{
  zeros, burst_window, set_time, mean_below, index_error, runtime_error, Exit, raised, left,
  check_burst, exit, Run, cancelled, stopped, broken, finished, retry,
}
use krake.Retry.Batches.{too_often, over, close_batch, batches, window_of, verdict_of}

append_assoc : (xs : List ℕ) (t : ℕ) (ys : List ℕ) → (xs ++ t ∷ []) ++ ys ≡ xs ++ t ∷ ys
append_assoc [] t ys = refl
append_assoc (x ∷ xs) t ys = ap (x ∷◌) (append_assoc xs t ys)

length-zeros : (n : ℕ) → length (zeros n) ≡ n
unfolding zeros
length-zeros zero = refl
length-zeros (suc n) = ap suc (length-zeros n)

set_time-append :
    (batch : List ℕ) (x t : ℕ) (old : List ℕ)
    → set_time (batch ++ x ∷ old) (length batch) t ≡ some (batch ++ t ∷ old)
unfolding set_time
set_time-append [] x t old = refl
set_time-append (b ∷ batch) x t old = rw (set_time-append batch x t old) refl

nat_beq-lt : (a b : ℕ) → a < b → nat_beq a b ≡ false
nat_beq-lt a b h = ground arith

module _ (burst_time max_retry : ℕ) where
  -- What the exit of a window does is what closing the batch does.
  ExitAs : Option (List ℕ) → Exit → Type 0
  ExitAs none e = e ≡ raised runtime_error
  ExitAs (some next) e =
      (old : List ℕ) × (e ≡ left (window_of burst_time max_retry next old))
      × (length next < max_retry)
      × (length (next ++ old) ≡ max_retry)

  exit-check :
      (batch : List ℕ) (x t : ℕ) (old : List ℕ)
      → exit t (window_of burst_time max_retry batch (x ∷ old))
        ≡ check_burst (window_of burst_time max_retry batch (x ∷ old)) (batch ++ t ∷ old)
  unfolding exit window_of
  exit-check batch x t old =
      ap
        (λ o. elim o [
          | none ↦ raised index_error
          | some times ↦ check_burst (window_of burst_time max_retry batch (x ∷ old)) times
        ])
        (set_time-append batch x t old)

  open_lem :
      (batch : List ℕ) (x t : ℕ) (old : List ℕ)
      → length batch + 1 < max_retry
      → check_burst (window_of burst_time max_retry batch (x ∷ old)) (batch ++ t ∷ old)
        ≡ left (window_of burst_time max_retry (batch ++ t ∷ []) old)
  unfolding check_burst window_of
  open_lem batch x t old more =
      rw
        (
          mod-eq_of_lt more,
          nat_beq-lt (length batch + 1) max_retry more,
          sym (append_assoc batch t old),
          sym (length-append batch (t ∷ [])),
        )
        refl

  full_lem :
      (batch : List ℕ) (x t : ℕ)
      → length batch + 1 ≡ max_retry
      → check_burst (window_of burst_time max_retry batch (x ∷ [])) (batch ++ t ∷ []) ≡ (
          if mean_below (batch ++ t ∷ []) burst_time
          then raised runtime_error
          else left (window_of burst_time max_retry [] (batch ++ t ∷ [])))
  unfolding check_burst window_of
  full_lem batch x t full =
      rw (full, mod_self max_retry, (nat_beq_iff max_retry max_retry).1 refl) refl

  close_batch-open :
      (batch : List ℕ) (t : ℕ)
      → length batch + 1 < max_retry
      → close_batch burst_time max_retry (batch ++ t ∷ []) ≡ some (batch ++ t ∷ [])
  unfolding close_batch
  close_batch-open batch t more =
      rw (length-append batch (t ∷ []), nat_beq-lt (length batch + 1) max_retry more) refl

  close_batch-full :
      (batch : List ℕ) (t : ℕ)
      → length batch + 1 ≡ max_retry
      → close_batch burst_time max_retry (batch ++ t ∷ [])
        ≡ (if mean_below (batch ++ t ∷ []) burst_time then none else some [])
  unfolding close_batch mean_below
  close_batch-full batch t full =
      rw (length-append batch (t ∷ []), full, (nat_beq_iff max_retry max_retry).1 refl) refl

  closed_full :
      (batch : List ℕ) (x t : ℕ)
      → length batch + 1 ≡ max_retry
      → ExitAs
          (close_batch burst_time max_retry (batch ++ t ∷ []))
          (check_burst (window_of burst_time max_retry batch (x ∷ [])) (batch ++ t ∷ []))
  unfolding ExitAs
  closed_full batch x t full =
      rw (close_batch-full batch t full, full_lem batch x t full)
        (elim (Bool-cases (mean_below (batch ++ t ∷ []) burst_time)) [
          | inl short ↦ rw short refl
          | inr long ↦ rw long (
            batch ++ t ∷ [],
            refl,
            omega (arith, full),
            omega (arith, full, length-append batch (t ∷ [])),
          )
        ])

  exit-closes :
      (batch : List ℕ) (x t : ℕ) (old : List ℕ)
      → length (batch ++ x ∷ old) ≡ max_retry
      → ExitAs
          (close_batch burst_time max_retry (batch ++ t ∷ []))
          (exit t (window_of burst_time max_retry batch (x ∷ old)))
  unfolding ExitAs
  exit-closes batch x t [] full =
      rw (exit-check batch x t [])
        (closed_full batch x t (omega (arith, full, length-append batch (x ∷ []))))
  exit-closes batch x t (y ∷ old) full =
      let more : length batch + 1 < max_retry =
        omega (arith, full, length-append batch (x ∷ y ∷ old)) in
      rw
        (
          exit-check batch x t (y ∷ old),
          open_lem batch x t (y ∷ old) more,
          close_batch-open batch t more,
        )
        (
          y ∷ old,
          refl,
          omega (arith, more, length-append batch (t ∷ [])),
          omega (
            arith,
            full,
            length-append batch (x ∷ y ∷ old),
            length-append (batch ++ t ∷ []) (y ∷ old),
            length-append batch (t ∷ []),
          ),
        )

  -- The promise from a batch on: a window that stands for it gives the same verdict.
  Promised : List Run → List ℕ → List ℕ → Type 0
  Promised runs batch old =
      verdict_of (retry runs (window_of burst_time max_retry batch old))
      ≡ some (batches burst_time max_retry batch runs)

  after_cancelled :
      (o : Option (List ℕ)) (e : Exit)
      → ExitAs o e
      → verdict_of (elim e [ left w ↦ finished | raised f ↦ broken f ])
        ≡ some (elim o [ none ↦ too_often | some next ↦ over ])
  unfolding ExitAs verdict_of
  after_cancelled none e h = rw h refl
  after_cancelled (some next) e h = rw (h.1) refl

  after_stopped :
      (runs : List Run)
      → ((batch old : List ℕ)
          → length batch < max_retry
          → length (batch ++ old) ≡ max_retry
          → Promised runs batch old)
      → (o : Option (List ℕ)) (e : Exit) → ExitAs o e
      → verdict_of (elim e [ left w ↦ retry runs w | raised f ↦ broken f ])
        ≡ some (elim o [ none ↦ too_often | some next ↦ batches burst_time max_retry next runs ])
  unfolding ExitAs verdict_of Promised
  after_stopped runs promised none e h = rw h refl
  after_stopped runs promised (some next) e h =
      let (old, same, more, full) = h in rw same (promised next old more full)

  promised :
      (runs : List Run) (batch old : List ℕ)
      → length batch < max_retry
      → length (batch ++ old) ≡ max_retry
      → Promised runs batch old
  unfolding Promised retry batches verdict_of
  promised [] batch old more full = refl
  promised runs batch [] more full = absurd (omega (arith, more, full, length-append batch []))
  promised (cancelled t ∷ runs) batch (x ∷ old) more full =
      after_cancelled (close_batch burst_time max_retry (batch ++ t ∷ []))
        (exit t (window_of burst_time max_retry batch (x ∷ old))) (exit-closes batch x t old full)
  promised (stopped t ∷ runs) batch (x ∷ old) more full =
      after_stopped runs (promised runs) (close_batch burst_time max_retry (batch ++ t ∷ []))
        (exit t (window_of burst_time max_retry batch (x ∷ old))) (exit-closes batch x t old full)

  -- With at least one retry, the restarts of a task refine the description by batches: they stop
  -- with the RuntimeError exactly when a full batch of `max_retry` runs took less than
  -- `burst_time` on average, they never run into an IndexError, and else they go on until the
  -- task is cancelled.
  pub retry-batches :
      (runs : List Run)
      → 0 < max_retry
      → verdict_of (retry runs (burst_window burst_time max_retry))
        ≡ some (batches burst_time max_retry [] runs)
  unfolding burst_window window_of Promised
  retry-batches runs some_retry =
      promised runs [] (zeros max_retry) some_retry (length-zeros max_retry)
