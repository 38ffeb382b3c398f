-- ===== src/Retry/Batches.antt =====
-- What a burst window promises: the runs are taken in batches, and a batch that was too short
-- ends the restarts.
pub mod Refines
use krake.Prelude.{
  ℕ, zero, suc, ◌+◌, ◌*◌, ◌<◌, ◌≡◌, refl, ap, sym, subst, ◌∙◌, inl, inr, Bool, true, false, ◌&&◌,
  Option, none, some, List, [], ◌∷◌, ◌++◌, arith,
}
use krake.Prelude.Tests.{if◌then◌else◌, ltb, nat_beq, nat_beq_iff, Bool-cases}
use krake.Prelude.Lists.{length, length-append}
use krake.Retry.{
  BurstWindow, zeros, burst_window, set_time, sum, mean_below, Failure, index_error, runtime_error,
  Exit, raised, left, check_burst, exit, Run, cancelled, stopped, Outcome, broken, finished,
  running, retry,
}

pub data Verdict : Type 0 where
  too_often over still : Verdict

module _ (burst_time max_retry : ℕ) where
  -- A batch that is full ends the restarts if its runs were too short, and else a new one begins.
  unfoldable pub close_batch : List ℕ → Option (List ℕ)
  close_batch batch =
      if nat_beq (length batch) max_retry
      then if ltb (sum batch) (burst_time * max_retry) then none else some []
      else some batch

  -- The runs, with the times of the batch before them.
  unfoldable pub batches : List ℕ → List Run → Verdict
  unfolding close_batch
  batches batch [] = still
  batches batch (cancelled elapsed ∷ runs) = elim (close_batch (batch ++ elapsed ∷ [])) [
    | none ↦ too_often
    | some next ↦ over
  ]
  batches batch (stopped elapsed ∷ runs) = elim (close_batch (batch ++ elapsed ∷ [])) [
    | none ↦ too_often
    | some next ↦ batches next runs
  ]

  -- The window whose batch has these times; the other times are old.
  unfoldable pub window_of : List ℕ → List ℕ → BurstWindow
  window_of batch old = record {
    burst_time = burst_time;
    max_retry = max_retry;
    retries = length batch;
    times = batch ++ old;
  }

-- What a verdict is for the controller; an IndexError has none.
unfoldable pub verdict_of : Outcome → Option Verdict
verdict_of (broken runtime_error) = some too_often
verdict_of (broken index_error) = none
verdict_of finished = some over
verdict_of (running window) = some still
