-- ===== src/Manifest/Values/Assign.antt =====
-- What a dictionary holds after an assignment.
use krake.Prelude.{String, ◌≡◌, refl, some, arith}
use krake.Prelude.Tests.{if◌then◌else◌}
use krake.Prelude.Keys.{string_key, ◌==◌, ==_iff}
use krake.Manifest.Values.{Value, Fields, end, field, lookup, assign}

pub lookup-assign :
    (k j : String) (v : Value) (fs : Fields)
    → lookup j (assign k v fs) ≡ (if k == j then some v else lookup j fs)
unfolding lookup assign
lookup-assign k j v end = refl
lookup-assign k j v (field i w fs) =
    ground (arith, lookup-assign k j v fs, ==_iff i k, ==_iff i j, ==_iff k j)
