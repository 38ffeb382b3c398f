-- ===== src/Data/Core.antt =====
-- krake/krake/data/core.py: references to resources.
use text.Mathlib.Text.{◌==◌ as str_eq}
use text.Mathlib.TextEquality.{eq_iff}
use krake.Prelude.{String, ◌≡◌, ◌↔◌, Bool, true, false, ◌&&◌, Option, none, some, arith}
use krake.Prelude.Keys.{Keyed}

pub record ResourceRef : Type 0 where
  pub api : String
  pub namespace : Option String
  pub kind : String
  pub name : String

abbrev pub optional_same : Option String → Option String → Bool
optional_same none none = true
optional_same (some a) (some b) = str_eq a b
optional_same _ _ = false

pub optional_same_iff : (a b : Option String) → (optional_same a b ≡ true) ↔ (a ≡ b)
optional_same_iff none none = ground arith
optional_same_iff none (some b) = ground arith
optional_same_iff (some a) none = ground arith
optional_same_iff (some a) (some b) = ground (arith, eq_iff a b)

abbrev pub ref_same : ResourceRef → ResourceRef → Bool
ref_same a b =
    str_eq a.api b.api
    && optional_same a.namespace b.namespace
    && str_eq a.kind b.kind
    && str_eq a.name b.name

pub ref_same_iff : (a b : ResourceRef) → (ref_same a b ≡ true) ↔ (a ≡ b)
ref_same_iff a b = ground (
  arith,
  eq_iff a.api b.api,
  optional_same_iff a.namespace b.namespace,
  eq_iff a.kind b.kind,
  eq_iff a.name b.name,
)

instance abbrev pub ref_key : Keyed ResourceRef
ref_key = record { same = ref_same; same_iff = ref_same_iff }
