-- ===== src/Api/Database/Etcd.antt =====
-- What the session relies on in etcd: the semantics of its transactions and of its revisions,
-- and the histories that other clients make.
use krake.Prelude.{ℕ, suc, ◌≤◌, ◌<◌, String, ◌≡◌, Bool, true, false, Option, none, some}
use krake.Prelude.Tests.{nat_beq}
use krake.Prelude.Keys.{◌==◌, string_key}
use krake.Api.Database.{
  Kv, Compare, create_is_zero, mod_is, Operation, put_key, delete_key, EtcdClient,
}

-- The value of a comparison: a key that is missing has the revisions 0.
abbrev pub created_at : {V : Type 0} → Option (Kv V) → ℕ
created_at none = 0
created_at (some kv) = kv.create_revision

abbrev pub modified_at : {V : Type 0} → Option (Kv V) → ℕ
modified_at none = 0
modified_at (some kv) = kv.mod_revision

abbrev pub version_at : {V : Type 0} → Option (Kv V) → ℕ
version_at none = 0
version_at (some kv) = kv.version

abbrev pub holds : {V : Type 0} → (String → Option (Kv V)) → Compare → Bool
holds range (create_is_zero key) = nat_beq (created_at (range key)) 0
holds range (mod_is key n) = nat_beq (modified_at (range key)) n

-- The pair that a put at the revision `header` leaves.
abbrev pub written : {V : Type 0} → String → V → Option (Kv V) → ℕ → Kv V
written key value none header = record {
  key = key;
  create_revision = header;
  mod_revision = header;
  version = 1;
  value = value;
}
written key value (some kv) header = record {
  key = key;
  create_revision = kv.create_revision;
  mod_revision = header;
  version = suc kv.version;
  value = value;
}

abbrev pub operation_key : {V : Type 0} → Operation V → String
operation_key (put_key key value) = key
operation_key (delete_key key) = key

pub record EtcdLaws {Store Value : Type 0} (etcd : EtcdClient Store Value) : Type 0 where
  -- The revision of the whole store.
  pub header : Store → ℕ
  -- The revisions of a pair: it was created, and not after the revision of the store.
  pub key_of_pair : (k : String) (s : Store) (kv : Kv Value) → etcd.range k s ≡ some kv → kv.key ≡ k
  pub positive :
      (k : String) (s : Store) (kv : Kv Value) → etcd.range k s ≡ some kv → 1 ≤ kv.create_revision
  pub created_first :
      (k : String) (s : Store) (kv : Kv Value)
      → etcd.range k s ≡ some kv
      → kv.create_revision ≤ kv.mod_revision
  pub version_positive :
      (k : String) (s : Store) (kv : Kv Value) → etcd.range k s ≡ some kv → 1 ≤ kv.version
  pub bounded :
      (k : String) (s : Store) (kv : Kv Value)
      → etcd.range k s ≡ some kv
      → kv.mod_revision ≤ header s
  -- A transaction succeeds exactly when its comparison holds, and otherwise changes nothing.
  pub succeeds :
      (c : Compare) (op : Operation Value) (s : Store)
      → (etcd.commit c op s).0.succeeded ≡ holds (λ k. etcd.range k s) c
  pub fails :
      (c : Compare) (op : Operation Value) (s : Store)
      → holds (λ k. etcd.range k s) c ≡ false
      → (etcd.commit c op s).1 ≡ s
  pub later :
      (c : Compare) (op : Operation Value) (s : Store) → header s ≤ header (etcd.commit c op s).1
  pub answers :
      (c : Compare) (op : Operation Value) (s : Store)
      → (etcd.commit c op s).0.revision ≡ header (etcd.commit c op s).1
  pub puts :
      (c : Compare) (k : String) (v : Value) (s : Store)
      → holds (λ j. etcd.range j s) c ≡ true
      → etcd.range k (etcd.commit c (put_key k v) s).1
        ≡ some (written k v (etcd.range k s) (header (etcd.commit c (put_key k v) s).1))
  -- A put is at a new revision.
  pub newer :
      (c : Compare) (k : String) (v : Value) (s : Store)
      → holds (λ j. etcd.range j s) c ≡ true
      → header s < header (etcd.commit c (put_key k v) s).1
  pub deletes :
      (c : Compare) (k : String) (s : Store)
      → holds (λ j. etcd.range j s) c ≡ true
      → etcd.range k (etcd.commit c (delete_key k) s).1 ≡ none
  pub others :
      (c : Compare) (op : Operation Value) (s : Store) (k : String)
      → (operation_key op == k) ≡ false
      → etcd.range k (etcd.commit c op s).1 ≡ etcd.range k s

-- What any number of clients can do to the store, in any order.
pub data Later {Store Value : Type 0} (etcd : EtcdClient Store Value) (s : Store)
    : Store → Type 0 where
  now : Later etcd s s
  after :
      {t : Store}
      → Later etcd s t
      → (c : Compare) (op : Operation Value) → Later etcd s (etcd.commit c op t).1
