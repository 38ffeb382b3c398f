-- ===== src/Api/Database/Memory.antt =====
-- A store in memory that has the transactions of etcd, with texts for values.
mod Examples
use krake.Prelude.{
  ℕ, suc, ◌+◌, ◌≤◌, ◌<◌, String, ◌≡◌, refl, subst, inl, inr, Bool, true, false, Option, none, some,
  List, [], ◌∷◌, arith,
}
use krake.Prelude.Tests.{if◌then◌else◌, nat_beq, Bool-cases}
use krake.Prelude.Keys.{◌==◌, ==_iff, ==_refl, string_key}
use krake.Api.Database.{
  Kv, Compare, create_is_zero, mod_is, Operation, put_key, delete_key, Response, EtcdClient,
}
use krake.Api.Database.Etcd.{created_at, modified_at, holds, written, operation_key, EtcdLaws}

-- A pair of the key that was written at revisions up to the store's own.
record Sane (header : ℕ) (key : String) (kv : Kv String) : Type 0 where
  of_key : kv.key ≡ key
  positive : 1 ≤ kv.create_revision
  created_first : kv.create_revision ≤ kv.mod_revision
  version_positive : 1 ≤ kv.version
  bounded : kv.mod_revision ≤ header

pub record Memory : Type 0 where
  header : ℕ
  pairs : String → Option (Kv String)
  sane : (k : String) (kv : Kv String) → pairs k ≡ some kv → Sane header k kv

pub empty_store : Memory
empty_store = record { header = 1; pairs = λ k. none; sane = λ k kv h. cc }

written-Sane :
    (k v : String) (old : Option (Kv String)) (header : ℕ)
    → ((kv : Kv String) → old ≡ some kv → Sane header k kv)
    → Sane (suc header) k (written k v old (suc header))
written-Sane k v none header h = record {
  of_key = refl;
  positive = omega arith;
  created_first = omega arith;
  version_positive = omega arith;
  bounded = omega arith;
}
written-Sane k v (some kv) header h =
    let before = h kv refl in
    record {
      of_key = refl;
      positive = before.positive;
      created_first = omega (arith, before.created_first, before.bounded);
      version_positive = omega arith;
      bounded = omega arith;
    }

Sane-later : (header : ℕ) (k : String) (kv : Kv String) → Sane header k kv → Sane (suc header) k kv
Sane-later header k kv h = record {
  of_key = h.of_key;
  positive = h.positive;
  created_first = h.created_first;
  version_positive = h.version_positive;
  bounded = omega (arith, h.bounded);
}

put-Sane :
    (k v : String) (s : Memory) (j : String) (kv : Kv String)
    → (if k == j then some (written k v (s.pairs k) (suc s.header)) else s.pairs j) ≡ some kv
    → Sane (suc s.header) j kv
put-Sane k v s j kv h = elim (Bool-cases (k == j)) [
  | inl same ↦
      let stored : written k v (s.pairs k) (suc s.header) ≡ kv = ground (arith, rw same at h) in
      subst (Sane (suc s.header) j) stored (
        subst (λ i. Sane (suc s.header) i (written k v (s.pairs k) (suc s.header)))
          ((==_iff k j).0 same) (written-Sane k v (s.pairs k) s.header (s.sane k)))
  | inr other ↦ Sane-later s.header j kv (s.sane j kv (rw other at h))
]

delete-Sane :
    (k : String) (s : Memory) (j : String) (kv : Kv String)
    → (if k == j then none else s.pairs j) ≡ some kv
    → Sane (suc s.header) j kv
delete-Sane k s j kv h = elim (Bool-cases (k == j)) [
  | inl same ↦ absurd (cc (rw same at h))
  | inr other ↦ Sane-later s.header j kv (s.sane j kv (rw other at h))
]

run_operation : Operation String → Memory → Memory
run_operation (put_key k v) s = record {
  header = suc s.header;
  pairs = λ j. if k == j then some (written k v (s.pairs k) (suc s.header)) else s.pairs j;
  sane = put-Sane k v s;
}
run_operation (delete_key k) s = record {
  header = suc s.header;
  pairs = λ j. if k == j then none else s.pairs j;
  sane = delete-Sane k s;
}

header-run_operation :
    (op : Operation String) (s : Memory) → (run_operation op s).header ≡ suc s.header
unfolding run_operation
header-run_operation (put_key k v) s = refl
header-run_operation (delete_key k) s = refl

run_operation-others :
    (op : Operation String) (s : Memory) (k : String)
    → (operation_key op == k) ≡ false
    → (run_operation op s).pairs k ≡ s.pairs k
unfolding run_operation
run_operation-others (put_key j v) s k h = rw h refl
run_operation-others (delete_key j) s k h = rw h refl

memory_commit : Compare → Operation String → Memory → Response × Memory
unfolding run_operation
memory_commit c op s =
    if holds s.pairs c
    then (record { succeeded = true; revision = suc s.header }, run_operation op s)
    else (record { succeeded = false; revision = s.header }, s)

pub memory_etcd : EtcdClient Memory String
unfolding memory_commit
memory_etcd = record {
  range = λ k s. s.pairs k;
  range_prefix = λ prefix s. [];
  commit = memory_commit;
}

pub memory_etcd-EtcdLaws : EtcdLaws memory_etcd
unfolding memory_etcd memory_commit run_operation
memory_etcd-EtcdLaws = record {
  header = λ s. s.header;
  key_of_pair = λ k s kv h. (s.sane k kv h).of_key;
  positive = λ k s kv h. (s.sane k kv h).positive;
  created_first = λ k s kv h. (s.sane k kv h).created_first;
  version_positive = λ k s kv h. (s.sane k kv h).version_positive;
  bounded = λ k s kv h. (s.sane k kv h).bounded;
  succeeds = λ c op s. ground arith;
  fails = λ c op s h. rw h refl;
  later = λ c op s. ground (arith, header-run_operation op s);
  answers = λ c op s. ground (arith, header-run_operation op s);
  puts = λ c k v s h. rw h (rw (==_refl k) refl);
  newer = λ c k v s h. rw h (omega arith);
  deletes = λ c k s h. rw h (rw (==_refl k) refl);
  others = λ c op s k h. ground (arith, run_operation-others op s k h);
}
