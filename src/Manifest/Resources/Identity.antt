-- ===== src/Manifest/Resources/Identity.antt =====
-- When an entry of a manifest is the resource that is looked for.
use krake.Prelude.{◌≡◌, refl, ap, ◌∙◌, ◌↔◌, ◌⊎◌, inl, inr, String, Bool, true, false, arith}
use krake.Prelude.Tests.{if◌then◌else◌}
use krake.Manifest.Results.{Result, ok, raised, ◌>>=◌}
use krake.Manifest.Values.{Value, subscript, same}
use krake.Manifest.Resources.{
  get_field, api_version, same_field, both_true, same_name, same_namespace, identifies,
}

-- Both values are there, and whether they are the same is `b`.
abbrev pub Compared : Bool → Result Value → Result Value → Type 0
Compared b x y = (v : Value) × (w : Value) × (x ≡ ok v) × (y ≡ ok w) × (same v w ≡ b)

abbrev pub name_at : Value → Result Value
name_at v = subscript "metadata" v >>= λ m. subscript "name" m

abbrev pub namespace_at : Value → Result Value
namespace_at v = subscript "metadata" v >>= λ m. get_field "namespace" m

-- The entry has the resource's version of the API, its kind and its name, and where that is checked
-- its namespace, which may be missing in both.
abbrev pub IsResource : Bool → Value → Value → Type 0
IsResource check resource found =
    Compared true (subscript "apiVersion" found) (api_version resource)
    × Compared true (subscript "kind" found) (subscript "kind" resource)
    × Compared true (name_at found) (name_at resource)
    × ((check ≡ false) ⊎ Compared true (namespace_at found) (namespace_at resource))

-- The first of these that differs differs, and none before it fails.
abbrev pub IsOther : Bool → Value → Value → Type 0
IsOther check resource found =
    Compared false (subscript "apiVersion" found) (api_version resource)
    ⊎ (Compared true (subscript "apiVersion" found) (api_version resource)
        × (Compared false (subscript "kind" found) (subscript "kind" resource)
            ⊎ (Compared true (subscript "kind" found) (subscript "kind" resource)
                × (Compared false (name_at found) (name_at resource)
                    ⊎ (Compared true (name_at found) (name_at resource)
                        × ((check ≡ true)
                            × Compared false (namespace_at found) (namespace_at resource)))))))

-- A comparison of two values that may fail.
compared : Result Value → Result Value → Result Bool
compared x y = x >>= λ v. y >>= λ w. ok (same v w)

compared_iff : (b : Bool) (x y : Result Value) → (compared x y ≡ ok b) ↔ Compared b x y
unfolding compared
compared_iff b (raised e) y = (λ h. absurd (cc h), λ (v, w, p, q, r). absurd (cc p))
compared_iff b (ok v) (raised e) = (λ h. absurd (cc h), λ (v, w, p, q, r). absurd (cc q))
compared_iff b (ok v) (ok w) =
    (λ h. (v, w, refl, refl, ground (arith, h)), λ (v', w', p, q, r). cc (p, q, r))

both_true_iff : (a b : Result Bool) → (both_true a b ≡ ok true) ↔ ((a ≡ ok true) × (b ≡ ok true))
unfolding both_true
both_true_iff (raised e) b = (λ h. absurd (cc h), λ h. absurd (cc h.0))
both_true_iff (ok true) b = (λ h. (refl, h), λ h. h.1)
both_true_iff (ok false) b = (λ h. absurd (cc h), λ h. absurd (cc h.0))

both_false_iff :
    (a b : Result Bool)
    → (both_true a b ≡ ok false) ↔ ((a ≡ ok false) ⊎ ((a ≡ ok true) × (b ≡ ok false)))
unfolding both_true
both_false_iff (raised e) b =
    (λ h. absurd (cc h), λ h. elim h [ inl x ↦ absurd (cc x) | inr x ↦ absurd (cc x.0) ])
both_false_iff (ok true) b =
    (λ h. inr (refl, h), λ h. elim h [ inl x ↦ absurd (cc x) | inr x ↦ x.1 ])
both_false_iff (ok false) b = (λ h. inl refl, λ h. refl)

same_field-compared :
    (k : String) (found resource : Value)
    → same_field k found resource ≡ compared (subscript k found) (subscript k resource)
unfolding same_field compared
same_field-compared k found resource = refl

bind_bind :
    {A B C : Type 0} (x : Result A) (f : A → Result B) (g : B → Result C)
    → (x >>= λ a. f a >>= g) ≡ ((x >>= f) >>= g)
bind_bind (raised e) f g = refl
bind_bind (ok a) f g = refl

part-compared :
    (get : Value → Result Value) (m n : Result Value)
    → (m >>= λ a. get a >>= λ v. n >>= λ b. get b >>= λ w. ok (same v w))
      ≡ compared (m >>= get) (n >>= get)
unfolding compared
part-compared get (raised e) n = refl
part-compared get (ok a) n = inner (get a)
  where
    inner :
        (x : Result Value)
        → (x >>= λ v. n >>= λ b. get b >>= λ w. ok (same v w))
          ≡ (x >>= λ v. (n >>= get) >>= λ w. ok (same v w))
    inner (raised e) = refl
    inner (ok v) = bind_bind n get (λ w. ok (same v w))

-- The condition on the namespace.
on_namespace : Bool → Value → Value → Result Bool
on_namespace check resource found =
    if check then compared (namespace_at found) (namespace_at resource) else ok true

api-first :
    (api found : Result Value) (rest : Result Bool)
    → (api >>= λ a. both_true (found >>= λ v. ok (same v a)) rest)
      ≡ both_true (api >>= λ a. found >>= λ v. ok (same v a)) rest
unfolding both_true
api-first (raised e) found rest = refl
api-first (ok a) found rest = refl

api_iff :
    (b : Bool) (api found : Result Value)
    → ((api >>= λ a. found >>= λ v. ok (same v a)) ≡ ok b) ↔ Compared b found api
api_iff b (raised e) found = (λ h. absurd (cc h), λ (v, w, p, q, r). absurd (cc q))
api_iff b (ok a) (raised e) = (λ h. absurd (cc h), λ (v, w, p, q, r). absurd (cc p))
api_iff b (ok a) (ok v) =
    (λ h. (v, a, refl, refl, ground (arith, h)), λ (v', a', p, q, r). cc (p, q, r))

same_name-compared :
    (found resource : Value)
    → same_name found resource ≡ compared (name_at found) (name_at resource)
unfolding same_name
same_name-compared found resource =
    part-compared (subscript "name") (subscript "metadata" found) (subscript "metadata" resource)

namespace-compared :
    (check : Bool) (found resource : Value)
    → (if check then same_namespace found resource else ok true) ≡ on_namespace check resource found
unfolding same_namespace on_namespace
namespace-compared true found resource =
    part-compared (get_field "namespace") (subscript "metadata" found)
      (subscript "metadata" resource)
namespace-compared false found resource = refl

-- The version, the kind, the name and the namespace.
api_part : Value → Value → Result Bool
api_part resource found =
    api_version resource >>= λ a. subscript "apiVersion" found >>= λ v. ok (same v a)

parts : Bool → Value → Value → Result Bool
unfolding api_part
parts check resource found = both_true (api_part resource found) (
    both_true (compared (subscript "kind" found) (subscript "kind" resource))
      (both_true (compared (name_at found) (name_at resource)) (on_namespace check resource found)))

identifies-parts :
    (check : Bool) (resource found : Value)
    → identifies check resource found ≡ parts check resource found
unfolding identifies parts api_part
identifies-parts check resource found =
    api-first (api_version resource) (subscript "apiVersion" found) (
      both_true (same_field "kind" found resource) (
        both_true (same_name found resource)
          (if check then same_namespace found resource else ok true)))
    ∙ ap (both_true (api_part resource found)) (
        ap
          (λ x. both_true x (
            both_true (same_name found resource)
              (if check then same_namespace found resource else ok true)))
          (same_field-compared "kind" found resource)
        ∙ ap (both_true (compared (subscript "kind" found) (subscript "kind" resource))) (
            ap (λ x. both_true x (if check then same_namespace found resource else ok true))
              (same_name-compared found resource)
            ∙ ap (both_true (compared (name_at found) (name_at resource)))
                (namespace-compared check found resource)))

namespace_true_iff :
    (check : Bool) (resource found : Value)
    → (on_namespace check resource found ≡ ok true)
      ↔ ((check ≡ false) ⊎ Compared true (namespace_at found) (namespace_at resource))
unfolding on_namespace
namespace_true_iff true resource found =
    let (f, g) = compared_iff true (namespace_at found) (namespace_at resource) in
    (λ h. inr (f h), λ h. elim h [ inl e ↦ absurd (cc e) | inr c ↦ g c ])
namespace_true_iff false resource found = (λ h. inl refl, λ h. refl)

namespace_false_iff :
    (check : Bool) (resource found : Value)
    → (on_namespace check resource found ≡ ok false)
      ↔ ((check ≡ true) × Compared false (namespace_at found) (namespace_at resource))
unfolding on_namespace
namespace_false_iff true resource found =
    let (f, g) = compared_iff false (namespace_at found) (namespace_at resource) in
    (λ h. (refl, f h), λ h. g (h.1))
namespace_false_iff false resource found = (λ h. absurd (cc h), λ h. absurd (cc h.0))

-- The condition of the search holds exactly of an entry that is the resource.
pub identifies-IsResource :
    (check : Bool) (resource found : Value)
    → (identifies check resource found ≡ ok true) ↔ IsResource check resource found
unfolding parts api_part
identifies-IsResource check resource found = rw (identifies-parts check resource found) (
    ground (
      arith,
      both_true_iff (api_part resource found) (
          both_true (compared (subscript "kind" found) (subscript "kind" resource)) (
            both_true (compared (name_at found) (name_at resource))
              (on_namespace check resource found))),
      both_true_iff (compared (subscript "kind" found) (subscript "kind" resource)) (
          both_true (compared (name_at found) (name_at resource))
            (on_namespace check resource found)),
      both_true_iff (compared (name_at found) (name_at resource))
          (on_namespace check resource found),
      api_iff true (api_version resource) (subscript "apiVersion" found),
      compared_iff true (subscript "kind" found) (subscript "kind" resource),
      compared_iff true (name_at found) (name_at resource),
      namespace_true_iff check resource found,
    ))

-- The condition of the search does not hold exactly of an entry that is another one.
pub identifies-IsOther :
    (check : Bool) (resource found : Value)
    → (identifies check resource found ≡ ok false) ↔ IsOther check resource found
unfolding parts api_part
identifies-IsOther check resource found = rw (identifies-parts check resource found) (
    ground (
      arith,
      both_false_iff (api_part resource found) (
          both_true (compared (subscript "kind" found) (subscript "kind" resource)) (
            both_true (compared (name_at found) (name_at resource))
              (on_namespace check resource found))),
      both_false_iff (compared (subscript "kind" found) (subscript "kind" resource)) (
          both_true (compared (name_at found) (name_at resource))
            (on_namespace check resource found)),
      both_false_iff (compared (name_at found) (name_at resource))
          (on_namespace check resource found),
      api_iff true (api_version resource) (subscript "apiVersion" found),
      api_iff false (api_version resource) (subscript "apiVersion" found),
      compared_iff true (subscript "kind" found) (subscript "kind" resource),
      compared_iff false (subscript "kind" found) (subscript "kind" resource),
      compared_iff true (name_at found) (name_at resource),
      compared_iff false (name_at found) (name_at resource),
      namespace_false_iff check resource found,
    ))
