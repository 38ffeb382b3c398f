-- ===== src/Api/Database.antt =====
-- krake/krake/api/database.py: `Session` and `Watcher`. The etcd server and its client are a
-- parameter (Database/Etcd), and so is the class of the objects that are stored: a session is
-- generic in it.
mod Etcd
mod Locking
mod Contents
mod Memory
use krake.Prelude.{
  ℕ, suc, zero, ◌+◌, String, ◌≡◌, Bool, true, false, ◌||◌, Option, none, some, List, [], ◌∷◌, map,
}
use krake.Prelude.Tests.{if◌then◌else◌, nat_beq}

-- A key-value pair of etcd.
pub record Kv (Value : Type 0) : Type 0 where
  pub key : String
  pub create_revision : ℕ
  pub mod_revision : ℕ
  pub version : ℕ
  pub value : Value

-- The comparisons that the session asks a transaction for.
pub data Compare : Type 0 where
  create_is_zero : String → Compare
  mod_is : String → ℕ → Compare

pub data Operation (Value : Type 0) : Type 0 where
  put_key : String → Value → Operation Value
  delete_key : String → Operation Value

pub record Response : Type 0 where
  pub succeeded : Bool
  pub revision : ℕ

-- The client of the etcd server: a store is what the server holds.
pub record EtcdClient (Store Value : Type 0) : Type 0 where
  pub range : String → Store → Option (Kv Value)
  pub range_prefix : String → Store → List (Kv Value)
  pub commit : Compare → Operation Value → Store → Response × Store

-- What a session wants of the class of the stored objects: its key template and its JSON form.
pub record Serializable (Model Value : Type 0) : Type 0 where
  pub etcd_key : Model → String
  pub prefix : String
  pub matches : String → Bool
  pub serialize : Model → Value
  pub deserialize : Value → Option Model

pub record Revision : Type 0 where
  pub key : String
  pub created : ℕ
  pub modified : ℕ
  pub version : ℕ

abbrev pub from_kv : {Value : Type 0} → Kv Value → Revision
from_kv kv = record {
  key = kv.key;
  created = kv.create_revision;
  modified = kv.mod_revision;
  version = kv.version;
}

-- An object in the hands of a session; no revision means that it is new.
pub record Instance (Model : Type 0) : Type 0 where
  pub model : Model
  pub revision : Option Revision

-- What an operation answers: TransactionError with its two messages, ValueError, or a value that
-- cannot be deserialized.
pub data Outcome (A : Type 0) : Type 0 where
  done : A → Outcome A
  not_found : Outcome A
  key_exists : Outcome A
  key_modified : Outcome A
  no_revision : Outcome A
  invalid : Outcome A

pub data Event (Model : Type 0) : Type 0 where
  put_event : Instance Model → Revision → Event Model
  delete_event : Revision → Event Model

-- An event of the watch stream of etcd.
pub data WatchEvent (Value : Type 0) : Type 0 where
  etcd_put : Kv Value → WatchEvent Value
  etcd_delete : Kv Value → WatchEvent Value

abbrev pub event_kv : {Value : Type 0} → WatchEvent Value → Kv Value
event_kv (etcd_put kv) = kv
event_kv (etcd_delete kv) = kv

-- `rev is None or rev.version == 0`
is_fresh : Option Revision → Bool
is_fresh none = true
is_fresh (some rev) = nat_beq rev.version 0

put_compare : String → Option Revision → Compare
put_compare key none = create_is_zero key
put_compare key (some rev) =
    if nat_beq rev.version 0 then create_is_zero key else mod_is key rev.modified

put_failed : {A : Type 0} → Option Revision → Outcome A
put_failed none = key_exists
put_failed (some rev) = key_modified

created_revision : String → ℕ → Revision
created_revision key header = record { key = key; created = header; modified = header; version = 1 }

-- The revision that an instance has after it was put.
put_revision : String → Option Revision → ℕ → Revision
unfolding created_revision
put_revision key none header = created_revision key header
put_revision key (some rev) header =
    if nat_beq rev.version 0
    then created_revision key header
    else record rev { modified = header; version = suc rev.version }

module _ {Store Value Model : Type 0} (etcd : EtcdClient Store Value)
    (class : Serializable Model Value) where
  load_instance : Kv Value → Outcome (Instance Model)
  load_instance kv = elim (class.deserialize kv.value) [
    | none ↦ invalid
    | some m ↦ done (record { model = m; revision = some (from_kv kv) })
  ]

  pub get_by_key : String → Store → Outcome (Instance Model)
  unfolding load_instance
  get_by_key key s = elim (etcd.range key s) [ none ↦ not_found | some kv ↦ load_instance kv ]

  load_all : List (Kv Value) → List (Outcome (Instance Model))
  unfolding load_instance
  load_all [] = []
  load_all (kv ∷ kvs) =
      let rest = load_all kvs in if class.matches kv.key then load_instance kv ∷ rest else rest

  pub all : Store → List (Outcome (Instance Model))
  unfolding load_all
  all s = load_all (etcd.range_prefix class.prefix s)

  put_response : Instance Model → Response × Store → Outcome (Instance Model) × Store
  unfolding put_failed put_revision
  put_response x (response, s) =
      if response.succeeded
      then (
        done (record x {
          revision = some (put_revision (class.etcd_key x.model) x.revision response.revision);
        }),
        s,
      )
      else (put_failed x.revision, s)

  pub put : Instance Model → Store → Outcome (Instance Model) × Store
  unfolding put_response put_compare
  put x s =
      let key = class.etcd_key x.model in
      put_response x
        (etcd.commit (put_compare key x.revision) (put_key key (class.serialize x.model)) s)

  delete_response : Instance Model → Revision → Response × Store → Outcome (Instance Model) × Store
  delete_response x rev (response, s) =
      if response.succeeded
      then (
        done (record x {
          revision = some (record rev { modified = response.revision; version = 0 });
        }),
        s,
      )
      else (key_modified, s)

  pub delete : Instance Model → Store → Outcome (Instance Model) × Store
  unfolding delete_response
  delete x s = elim x.revision [
    | none ↦ (no_revision, s)
    | some rev ↦
        let key = class.etcd_key x.model in
        delete_response x rev (etcd.commit (mod_is key rev.modified) (delete_key key) s)
  ]

  -- `Watcher.watch`: the events of the keys that match the template; a value that cannot be read
  -- ends the stream with an error, which is `none` here.
  watch_event : WatchEvent Value → Option (Event Model)
  unfolding load_instance
  watch_event (etcd_put kv) = elim (class.deserialize kv.value) [
    | none ↦ none
    | some m ↦ some (put_event (record { model = m; revision = some (from_kv kv) }) (from_kv kv))
  ]
  watch_event (etcd_delete kv) = some (delete_event (from_kv kv))

  pub watch : List (WatchEvent Value) → List (Option (Event Model))
  unfolding watch_event
  watch [] = []
  watch (e ∷ events) =
      let rest = watch events in
      if class.matches (event_kv e).key then watch_event e ∷ rest else rest
