-- ===== src/Retry.antt =====
-- krake/krake/controller/__init__.py: `BurstWindow` and `Controller.retry`, which restart a
-- background task that stops. The clock counts ticks, so that a mean of times is compared by its
-- sum.
pub mod Batches
mod Examples
use Prim.Native.Nat.{◌%◌}
use krake.Prelude.{
  ℕ, zero, suc, ◌+◌, ◌*◌, Bool, true, false, ◌&&◌, Option, none, some, List, [], ◌∷◌,
}
use krake.Prelude.Tests.{if◌then◌else◌, ltb, nat_beq}
use krake.Prelude.Lists.{length}

pub record BurstWindow : Type 0 where
  pub burst_time : ℕ
  pub max_retry : ℕ
  pub retries : ℕ
  pub times : List ℕ

-- [0] * n
unfoldable pub zeros : ℕ → List ℕ
zeros zero = []
zeros (suc n) = 0 ∷ zeros n

unfoldable pub burst_window : ℕ → ℕ → BurstWindow
unfolding zeros
burst_window burst_time max_retry = record {
  burst_time = burst_time;
  max_retry = max_retry;
  retries = 0;
  times = zeros max_retry;
}

-- times[i] = time, `none` for an IndexError.
unfoldable pub set_time : List ℕ → ℕ → ℕ → Option (List ℕ)
set_time [] i time = none
set_time (t ∷ times) zero time = some (time ∷ times)
set_time (t ∷ times) (suc i) time = elim (set_time times i time) [
  | none ↦ none
  | some changed ↦ some (t ∷ changed)
]

unfoldable pub sum : List ℕ → ℕ
sum [] = 0
sum (t ∷ times) = t + sum times

-- mean(times) < burst_time
unfoldable pub mean_below : List ℕ → ℕ → Bool
unfolding sum
mean_below times burst_time = ltb (sum times) (burst_time * length times)

pub data Failure : Type 0 where
  index_error runtime_error : Failure

pub data Exit : Type 0 where
  raised : Failure → Exit
  left : BurstWindow → Exit

unfoldable pub check_burst : BurstWindow → List ℕ → Exit
unfolding mean_below
check_burst window times =
    if nat_beq (window.retries + 1) window.max_retry && mean_below times window.burst_time
    then raised runtime_error
    else left (record window { times = times; retries = (window.retries + 1) % window.max_retry })

-- __exit__, with `end - self.start`.
unfoldable pub exit : ℕ → BurstWindow → Exit
unfolding set_time check_burst
exit elapsed window = elim (set_time window.times window.retries elapsed) [
  | none ↦ raised index_error
  | some times ↦ check_burst window times
]

-- One run of the task: it is cancelled, or it ends or fails. Both take some time.
pub data Run : Type 0 where
  cancelled stopped : ℕ → Run

-- How `retry` stands after some runs.
pub data Outcome : Type 0 where
  broken : Failure → Outcome
  finished : Outcome
  running : BurstWindow → Outcome

-- A `break` leaves the window too.
unfoldable pub retry : List Run → BurstWindow → Outcome
unfolding exit
retry [] window = running window
retry (cancelled elapsed ∷ runs) window = elim (exit elapsed window) [
  | left w ↦ finished
  | raised e ↦ broken e
]
retry (stopped elapsed ∷ runs) window = elim (exit elapsed window) [
  | left w ↦ retry runs w
  | raised e ↦ broken e
]
