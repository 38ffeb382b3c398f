-- ===== src/Api/Database/Memory/Examples.antt =====
-- The theorems on the database session at a store in memory.
use krake.Prelude.{String, ◌≡◌, ◌↔◌, refl, true, none, some}
use krake.Api.Database.{
  Kv, create_is_zero, mod_is, put_key, delete_key, Serializable, Revision, from_kv, Instance, done,
  key_modified, get_by_key, put, put_response, put_compare, put_revision,
}
use krake.Api.Database.Etcd.{now, after}
use krake.Api.Database.Memory.{
  Memory, memory_commit, run_operation, memory_etcd, memory_etcd-EtcdLaws, empty_store,
}
use krake.Api.Database.Locking.{ReadFrom, put-iff_unchanged, second-writer_refused}
use krake.Api.Database.Contents.{get-put_instance, loaded-Tracks}

-- Texts under one key.
abbrev note : Serializable String String
note = record {
  etcd_key = λ m. "/note";
  prefix = "/note";
  matches = λ k. true;
  serialize = λ m. m;
  deserialize = λ v. some v;
}

-- A note that another client has written.
abbrev one_note : Memory
one_note = (memory_etcd.commit (create_is_zero "/note") (put_key "/note" "hello") empty_store).1

abbrev stored : Kv String
stored = record {
  key = "/note";
  create_revision = 2;
  mod_revision = 2;
  version = 1;
  value = "hello";
}

abbrev fresh : Instance String
fresh = record { model = "hi"; revision = none }

abbrev edited : String → Instance String
edited m = record { model = m; revision = some (from_kv stored) }

edited-ReadFrom :
    (m : String) → ReadFrom memory_etcd memory_etcd-EtcdLaws note "/note" stored one_note (edited m)
unfolding memory_etcd memory_commit run_operation empty_store
edited-ReadFrom m = record { at = refl; key = refl; revision = refl }

-- Another client takes the note away between the read and the put.
abbrev taken : Memory
taken = (memory_etcd.commit (mod_is "/note" 2) (delete_key "/note") one_note).1

put-iff_unchanged_example :
    (((y : Instance String) × ((put memory_etcd note (edited "bye") taken).0 ≡ done y))
      ↔ (memory_etcd.range "/note" taken ≡ some stored))
    × (¬ (memory_etcd.range "/note" taken ≡ some stored)
        → put memory_etcd note (edited "bye") taken ≡ (key_modified, taken))
put-iff_unchanged_example =
    put-iff_unchanged memory_etcd memory_etcd-EtcdLaws note "/note" stored one_note taken
      (edited "bye") (edited-ReadFrom "bye") (after now (mod_is "/note" 2) (delete_key "/note"))

-- The store after the first of two writers.
abbrev written_once : Memory
written_once = (put memory_etcd note (edited "first") one_note).1

first_revision : Revision
first_revision = record { key = "/note"; created = 2; modified = 3; version = 2 }

first-went :
    (put memory_etcd note (edited "first") one_note).0
    ≡ done (record { model = "first"; revision = some first_revision })
unfolding put put_response put_compare put_revision memory_etcd memory_commit run_operation
    empty_store first_revision
first-went = refl

second-writer_refused_example :
    put memory_etcd note (edited "second") written_once ≡ (key_modified, written_once)
second-writer_refused_example =
    second-writer_refused memory_etcd memory_etcd-EtcdLaws note "/note" stored one_note one_note
      written_once (edited "first") (edited "second")
      (record { model = "first"; revision = some first_revision }) (edited-ReadFrom "first")
      (edited-ReadFrom "second") now first-went now

get-put_instance_example :
    get_by_key memory_etcd note "/note" written_once
    ≡ done (record { model = "first"; revision = some first_revision })
get-put_instance_example =
    get-put_instance memory_etcd memory_etcd-EtcdLaws note one_note (edited "first")
      (record { model = "first"; revision = some first_revision }) refl
      (loaded-Tracks memory_etcd memory_etcd-EtcdLaws note "/note" stored one_note one_note
        (edited-ReadFrom "first").at now)
      first-went
