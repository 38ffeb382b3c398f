-- ===== src/Retry/Examples.antt =====
-- A task that stops too often.
use krake.Prelude.{◌≡◌, refl, some, List, [], ◌∷◌, arith}
use krake.Retry.{sum, burst_window, Run, cancelled, stopped, retry}
use krake.Retry.Batches.{too_often, batches, verdict_of}
use krake.Retry.Batches.Refines.{retry-batches}

-- A batch that is long enough, and one that is not.
abbrev runs : List Run
runs = stopped 20 ∷ stopped 1 ∷ stopped 9 ∷ stopped 9 ∷ stopped 9 ∷ stopped 9 ∷ cancelled 1 ∷ []

test_too_often : batches 10 3 [] runs ≡ too_often
unfolding batches sum
test_too_often = refl

retry-batches_example : verdict_of (retry runs (burst_window 10 3)) ≡ some (batches 10 3 [] runs)
retry-batches_example = retry-batches 10 3 runs (omega arith)
