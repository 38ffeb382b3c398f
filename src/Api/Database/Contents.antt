-- ===== src/Api/Database/Contents.antt =====
-- What a session reads back: the round trip of a put, the creation of a key, and deletions.
use krake.Prelude.{
  ℕ, suc, ◌≤◌, String, ◌≡◌, ◌↔◌, inl, inr, refl, ap, sym, ◌∙◌, Bool, true, false, Option, none,
  some, arith,
}
use krake.Prelude.Tests.{nat_beq, nat_beq_iff, Bool-cases, Option-cases}
use krake.Prelude.Keys.{string_key}
use krake.Api.Database.{
  Kv, Compare, mod_is, put_key, EtcdClient, Serializable, Revision, from_kv, Instance, done,
  not_found, key_exists, key_modified, put_compare, put_failed, put_revision, created_revision,
  load_instance, get_by_key, put_response, put, delete_response, delete,
}
use krake.Api.Database.Etcd.{created_at, modified_at, holds, written, EtcdLaws, Later}
use krake.Api.Database.Locking.{Kept-Later, range-positive}

-- The revision of an instance is one that its key has, or had.
pub data Tracks {V : Type 0} (key : String) (pair : Option (Kv V)) : Option Revision → Type 0 where
  new : Tracks key pair none
  deleted : (rev : Revision) → rev.version ≡ 0 → Tracks key pair (some rev)
  loaded :
      (rev : Revision)
      → 1 ≤ rev.version
      → 1 ≤ rev.modified
      → ((kv : Kv V) → pair ≡ some kv → kv.mod_revision ≡ rev.modified → from_kv kv ≡ rev)
      → Tracks key pair (some rev)

value-written :
    {V : Type 0} (k : String) (v : V) (old : Option (Kv V)) (header : ℕ)
    → (written k v old header).value ≡ v
value-written k v none header = refl
value-written k v (some kv) header = refl

module _ {Store Value Model : Type 0} (etcd : EtcdClient Store Value) (laws : EtcdLaws etcd)
    (class : Serializable Model Value) where
  range-none :
      (key : String) (s : Store) → created_at (etcd.range key s) ≡ 0 → etcd.range key s ≡ none
  range-none key s h = elim (Option-cases (etcd.range key s)) [
    | inl missing ↦ missing
    | inr (kv, found) ↦ absurd (omega (arith, laws.positive key s kv found, ap created_at found, h))
  ]

  -- The pair that a put writes has the revision that the instance gets.
  written-revision :
      (key : String) (v : Value) (s : Store) (rev : Option Revision) (header : ℕ)
      → Tracks key (etcd.range key s) rev
      → holds (λ j. etcd.range j s) (put_compare key rev) ≡ true
      → from_kv (written key v (etcd.range key s) header) ≡ put_revision key rev header
  unfolding put_revision created_revision put_compare
  written-revision key v s _ header new ok = rw (range-none key s ((nat_beq_iff _ 0).0 ok)) refl
  written-revision key v s _ header (deleted rev gone) ok =
      let fresh : nat_beq rev.version 0 ≡ true = (nat_beq_iff rev.version 0).1 gone in
      let missing : etcd.range key s ≡ none =
        range-none key s ((nat_beq_iff _ 0).0 (rw fresh at ok)) in
      rw (fresh, missing) refl
  written-revision key v s _ header (loaded rev version modified same) ok =
      let attached : nat_beq rev.version 0 ≡ false = ground (arith, version) in
      let unchanged : modified_at (etcd.range key s) ≡ rev.modified =
        (nat_beq_iff _ rev.modified).0 (rw attached at ok) in
      elim (Option-cases (etcd.range key s)) [
        | inl missing ↦ absurd (omega (arith, ap modified_at missing, unchanged, modified))
        | inr (kv, found) ↦
            let equal : from_kv kv ≡ rev = same kv found (sym (ap modified_at found) ∙ unchanged) in
            rw (attached, found, ← laws.key_of_pair key s kv found)
              (ap {A = Revision} (λ r. record r { modified = header; version = suc r.version })
                equal)
      ]

  -- The comparison of a put.
  abbrev put_test : Instance Model → Store → Bool
  put_test x s = holds (λ j. etcd.range j s) (put_compare (class.etcd_key x.model) x.revision)

  abbrev put_store : Instance Model → Store → Store
  put_store x s =
      let key = class.etcd_key x.model in
      (etcd.commit (put_compare key x.revision) (put_key key (class.serialize x.model)) s).1

  put-holds :
      (x : Instance Model) (s : Store)
      → put_test x s ≡ true
      → put etcd class x s ≡ (
        done (record x {
          revision =
              some (put_revision (class.etcd_key x.model) x.revision (laws.header (put_store x s)));
        }),
        put_store x s,
      )
  unfolding put put_response
  put-holds x s ok = rw laws.succeeds (rw ok (rw laws.answers refl))

  put-fails :
      (x : Instance Model) (s : Store)
      → put_test x s ≡ false
      → put etcd class x s ≡ (put_failed x.revision, s)
  unfolding put put_response
  put-fails x s failed = rw laws.succeeds (rw failed (rw laws.fails refl))

  put_failed-done : (rev : Option Revision) (y : Instance Model) → ¬ (put_failed rev ≡ done y)
  unfolding put_failed
  put_failed-done none y e = cc
  put_failed-done (some rev) y e = cc

  put-done :
      (x y : Instance Model) (s : Store) → (put etcd class x s).0 ≡ done y → put_test x s ≡ true
  put-done x y s went = elim (Bool-cases (put_test x s)) [
    | inl ok ↦ ok
    | inr failed ↦
        absurd (put_failed-done x.revision y (sym (ap (λ r. r.0) (put-fails x s failed)) ∙ went))
  ]

  load_instance-done :
      (kv : Kv Value) (m : Model) (rev : Revision)
      → class.deserialize kv.value ≡ some m
      → from_kv kv ≡ rev
      → load_instance etcd class kv ≡ done (record { model = m; revision = some rev })
  unfolding load_instance
  load_instance-done kv m rev readable same = rw (load_instance, readable, same) refl

  -- When the model can be read back from its JSON form, and the revision of the instance is none,
  -- that of a deletion, or one that its key has or had: after a put that went through, a get of the
  -- key yields the instance that the put left, with its model and its revision.
  pub get-put_instance :
      (s : Store) (x y : Instance Model)
      → class.deserialize (class.serialize x.model) ≡ some x.model
      → Tracks (class.etcd_key x.model) (etcd.range (class.etcd_key x.model) s) x.revision
      → (put etcd class x s).0 ≡ done y
      → get_by_key etcd class (class.etcd_key x.model) (put etcd class x s).1 ≡ done y
  unfolding get_by_key load_instance
  get-put_instance s x y readable tracks went =
      let ok = put-done x y s went in
      let key = class.etcd_key x.model in
      let v = class.serialize x.model in
      let header = laws.header (put_store x s) in
      let kv = written key v (etcd.range key s) header in
      rw (← went, put-holds x s ok)
        (rw (get_by_key, laws.puts (put_compare key x.revision) key v s ok)
          (load_instance-done kv x.model (put_revision key x.revision header)
            (ap class.deserialize (value-written key v (etcd.range key s) header) ∙ readable)
            (written-revision key v s x.revision header tracks ok)))

  -- The put of an instance without a revision creates its key: it goes through exactly when the
  -- key is missing, and otherwise answers that the key exists and leaves the store as it is.
  pub put-new :
      (s : Store) (x : Instance Model)
      → x.revision ≡ none
      → (((y : Instance Model) × ((put etcd class x s).0 ≡ done y))
          ↔ (etcd.range (class.etcd_key x.model) s ≡ none))
        × (¬ (etcd.range (class.etcd_key x.model) s ≡ none) → put etcd class x s ≡ (key_exists, s))
  unfolding put_compare put_failed
  put-new s x fresh =
      let key = class.etcd_key x.model in
      let test : put_test x s ≡ nat_beq (created_at (etcd.range key s)) 0 = rw fresh refl in
      elim (Bool-cases (put_test x s)) [
        | inl ok ↦
            let missing = range-none key s ((nat_beq_iff _ 0).0 (sym test ∙ ok)) in
            (
              (λ _. missing, λ _. (_, ap (λ r. r.0) (put-holds x s ok))),
              λ there. absurd (there missing),
            )
        | inr failed ↦
            let refused : put etcd class x s ≡ (key_exists, s) =
              rw (put-fails x s failed, fresh) refl in
            (
              (
                λ (y, e). absurd (cc (e, ap (λ r. r.0) refused)),
                λ missing. absurd (cc (failed, test ∙ (nat_beq_iff _ 0).1 (ap created_at missing))),
              ),
              λ _. refused,
            )
      ]

  -- A delete with the revision of the pair in the store takes the key out, so that a get finds
  -- nothing; with another revision it is refused and changes nothing.
  pub delete-cases :
      (s : Store) (x : Instance Model) (rev : Revision)
      → x.revision ≡ some rev
      → (modified_at (etcd.range (class.etcd_key x.model) s) ≡ rev.modified
          → ((y : Instance Model) × ((delete etcd class x s).0 ≡ done y))
            × (get_by_key etcd class (class.etcd_key x.model) (delete etcd class x s).1
                ≡ not_found))
        × (¬ (modified_at (etcd.range (class.etcd_key x.model) s) ≡ rev.modified)
            → delete etcd class x s ≡ (key_modified, s))
  unfolding delete delete_response get_by_key
  delete-cases s x rev attached =
      let key = class.etcd_key x.model in
      let c : Compare = mod_is key rev.modified in
      rw attached (
        λ same.
            let ok : holds (λ j. etcd.range j s) c ≡ true = (nat_beq_iff _ rev.modified).1 same in
            rw laws.succeeds (rw ok ((_, refl), rw (get_by_key, laws.deletes c key s ok) refl)),
        λ other.
            let failed : holds (λ j. etcd.range j s) c ≡ false = ground (arith, other) in
            rw laws.succeeds (rw failed (rw laws.fails refl)),
      )

  -- The revision that a get attached stays one that a put can use, whatever the other clients do
  -- until then.
  pub loaded-Tracks :
      (k : String) (kv : Kv Value) (s t : Store)
      → etcd.range k s ≡ some kv
      → Later etcd s t
      → Tracks k (etcd.range k t) (some (from_kv kv))
  loaded-Tracks k kv s t found later =
      let kept = Kept-Later etcd laws class k kv s t found later in
      loaded (from_kv kv) (laws.version_positive k s kv found)
        (range-positive etcd laws class k s kv found)
        (λ kv' found' same. elim kept.same_or_other [
          | inl here ↦ ground (arith, here, found')
          | inr moved ↦ absurd (moved (ap modified_at found' ∙ same))
        ])
