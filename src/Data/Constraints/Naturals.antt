-- ===== src/Data/Constraints/Naturals.antt =====
-- The natural numbers as the numbers of constraints and scores.
use Prim.Native.Nat.{◌/◌}
use krake.Prelude.{ℕ, ◌+◌, ◌*◌, none, some}
use krake.Prelude.Tests.{if◌then◌else◌, nat_beq, ltb}
use krake.Prelude.Keys.{◌==◌, string_key}
use krake.Data.Constraints.{Numbers}

abbrev pub naturals : Numbers ℕ
naturals = record {
  equals = nat_beq;
  less = ltb;
  parse = λ t. if t == "5" then some 5 else none;
  zero = 0;
  one = 1;
  add = λ a b. a + b;
  multiply = λ a b. a * b;
  divide = λ a b. a / b;
}
