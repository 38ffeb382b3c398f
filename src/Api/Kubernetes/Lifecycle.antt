-- ===== src/Api/Kubernetes/Lifecycle.antt =====
-- The life of an application under any sequence of requests, each served on what the database
-- holds when it is served.
mod Examples
use krake.Prelude.{
  ℕ, String, ◌≡◌, ◌⊎◌, inl, inr, refl, sym, ap, ◌∙◌, subst, Bool, true, false, not, ◌&&◌, ◌||◌,
  Option, none, some, List, [], ◌∷◌, ◌++◌, arith,
}
use krake.Prelude.Tests.{if◌then◌else◌, Bool-cases, Option-cases}
use krake.Prelude.Keys.{◌==◌, ==_iff, ==_refl, contains, string_key}
use krake.Data.Core.{ResourceRef, ref_key, optional_same}
use krake.Api.Kubernetes.{
  Metadata, Resource, Effect, stored, erased, unchanged, conflict, bad_request, unauthorized,
  is_set, is_nil, is_subset, metadata_update, resource_update, save_update, update_resource,
  mark_deleted, ApplicationState, ApplicationSpec, ApplicationStatus, Application, is_refused,
  is_cleaning, is_degraded, set_state, delete_application, update_application_binding,
  update_application_complete, update_application_shutdown, update_application_status,
  retry_application,
}

-- The requests that change an application that is there.
pub data Request (S T : Type 0) : Type 0 where
  update : ℕ → Application S T → Request S T
  delete : Bool → ℕ → Request S T
  bind : ℕ → ResourceRef → Request S T
  complete : ℕ → Option String → Request S T
  shutdown : Option String → Request S T
  set_status : Application S T → Request S T
  retry : Request S T

module _ {S T : Type 0} (same : Application S T → Application S T → Bool) where
  answer : Request S T → Application S T → Effect (Application S T)
  answer (update now body) app = update_resource same now body app
  answer (delete force now) app = delete_application force now app
  answer (bind now cluster) app = update_application_binding now cluster app
  answer (complete now token) app = update_application_complete now token app
  answer (shutdown token) app = update_application_shutdown token app
  answer (set_status body) app = update_application_status body app
  answer retry app = retry_application app

  -- What the database holds afterwards.
  after : Effect (Application S T) → Application S T → Option (Application S T)
  after (stored app) old = some app
  after (erased app) old = none
  after (unchanged app) old = some old
  after conflict old = some old
  after bad_request old = some old
  after unauthorized old = some old

  pub serve : Request S T → Application S T → Option (Application S T)
  unfolding answer after
  serve r app = after (answer r app) app

  -- The requests one after the other, until the application is gone.
  pub serve_all : List (Request S T) → Application S T → Option (Application S T)
  unfolding serve
  serve_all [] app = some app
  serve_all (r ∷ rs) app = elim (serve r app) [ none ↦ none | some next ↦ serve_all rs next ]

  -- What stays: the identity; and once the deletion is set it remains so, and finalizers only go.
  pub record Follows (a b : Application S T) : Type 0 where
    pub uid : b.metadata.uid ≡ a.metadata.uid
    pub name : b.metadata.name ≡ a.metadata.name
    pub created : b.metadata.created ≡ a.metadata.created
    pub deleted : is_set a.metadata.deleted ≡ true → is_set b.metadata.deleted ≡ true
    pub finalizers :
        is_set a.metadata.deleted ≡ true
        → (f : String) → contains f b.metadata.finalizers ≡ true
        → contains f a.metadata.finalizers ≡ true

  Follows-refl : (a : Application S T) → Follows a a
  Follows-refl a = record {
    uid = refl;
    name = refl;
    created = refl;
    deleted = λ h. h;
    finalizers = λ h f k. k;
  }

  Follows-trans : (a b c : Application S T) → Follows a b → Follows b c → Follows a c
  Follows-trans a b c h k = record {
    uid = k.uid ∙ h.uid;
    name = k.name ∙ h.name;
    created = k.created ∙ h.created;
    deleted = λ d. k.deleted (h.deleted d);
    finalizers = λ d f in_c. h.finalizers d f (k.finalizers (h.deleted d) f in_c);
  }

  Follows-metadata : (a b : Application S T) → b.metadata ≡ a.metadata → Follows a b
  Follows-metadata a b h = record {
    uid = ap (λ m. m.uid) h;
    name = ap (λ m. m.name) h;
    created = ap (λ m. m.created) h;
    deleted = λ d. ground (arith, h, d);
    finalizers = λ d f k. ground (arith, h, d, k);
  }

  subset-contains :
      (xs ys : List String) (f : String)
      → is_subset xs ys ≡ true
      → contains f xs ≡ true
      → contains f ys ≡ true
  unfolding is_subset
  subset-contains [] ys f h k = absurd (cc k)
  subset-contains (x ∷ xs) ys f h k = ground (arith, h, k, subset-contains xs ys f, ==_iff x f)

  update-Follows :
      (now : ℕ) (body a b : Application S T)
      → update_resource same now body a ≡ stored b
      → Follows a b
  unfolding update_resource save_update resource_update metadata_update is_set
  update-Follows now body a b h = record {
    uid = ground (arith, h);
    name = ground (arith, h);
    created = ground (arith, h);
    deleted = λ d. ground (arith, h, d);
    finalizers = λ d f k.
        ground (arith, h, d, k, subset-contains body.metadata.finalizers a.metadata.finalizers f);
  }

  answer-Follows : (r : Request S T) (a b : Application S T) → answer r a ≡ stored b → Follows a b
  unfolding answer update_application_binding update_application_complete
      update_application_shutdown update_application_status retry_application delete_application
      mark_deleted set_state is_set
  answer-Follows (update now body) a b h = update-Follows now body a b h
  answer-Follows (delete force now) a b h = record {
    uid = ground (arith, h);
    name = ground (arith, h);
    created = ground (arith, h);
    deleted = λ d. ground (arith, h, d);
    finalizers = λ d f k. ground (arith, h, d, k);
  }
  answer-Follows (bind now cluster) a b h = record {
    uid = ground (arith, h);
    name = ground (arith, h);
    created = ground (arith, h);
    deleted = λ d. ground (arith, h, d);
    finalizers = λ d f k. ground (arith, h, d, k);
  }
  answer-Follows (complete now token) a b h = record {
    uid = ground (arith, h);
    name = ground (arith, h);
    created = ground (arith, h);
    deleted = λ d. ground (arith, h, d);
    finalizers = λ d f k. ground (arith, h, d, k);
  }
  answer-Follows (shutdown token) a b h = Follows-metadata a b (ground (arith, h))
  answer-Follows (set_status body) a b h = Follows-metadata a b (ground (arith, h))
  answer-Follows retry a b h = Follows-metadata a b (ground (arith, h))

  after-Follows :
      (e : Effect (Application S T)) (a b : Application S T)
      → ((c : Application S T) → e ≡ stored c → Follows a c)
      → after e a ≡ some b
      → Follows a b
  unfolding after
  after-Follows (stored c) a b f h = subst (Follows a) (ground (arith, h)) (f c refl)
  after-Follows (erased c) a b f h = absurd (cc h)
  after-Follows (unchanged c) a b f h = subst (Follows a) (ground (arith, h)) (Follows-refl a)
  after-Follows conflict a b f h = subst (Follows a) (ground (arith, h)) (Follows-refl a)
  after-Follows bad_request a b f h = subst (Follows a) (ground (arith, h)) (Follows-refl a)
  after-Follows unauthorized a b f h = subst (Follows a) (ground (arith, h)) (Follows-refl a)

  -- Whatever requests are served, in any order, an application that is still there is the same
  -- one, with its uid, name and time of creation; a deletion that was set is never taken back; and
  -- from then on it has no finalizer that it did not have.
  pub serve_all-Follows :
      (rs : List (Request S T)) (a b : Application S T) → serve_all rs a ≡ some b → Follows a b
  unfolding serve_all serve
  serve_all-Follows [] a b h = subst (Follows a) (ground (arith, h)) (Follows-refl a)
  serve_all-Follows (r ∷ rs) a b h = elim (Option-cases (after (answer r a) a)) [
    | inl gone ↦ absurd (ground (arith, gone, h))
    | inr (next, is) ↦
        Follows-trans a next b (after-Follows (answer r a) a next (answer-Follows r a) is)
          (serve_all-Follows rs next b (ground (arith, is, h)))
  ]

  -- What takes an application out of the database.
  abbrev pub Removes : Request S T → Application S T → Type 0
  Removes (delete force now) a = force ≡ true
  Removes (update now body) a = (is_set a.metadata.deleted ≡ true) × (body.metadata.finalizers ≡ [])
  Removes _ a = ⊥

  after-none :
      (e : Effect (Application S T)) (a : Application S T)
      → after e a ≡ none
      → (c : Application S T) × (e ≡ erased c)
  unfolding after
  after-none (erased c) a h = (c, refl)
  after-none (stored c) a h = absurd (cc h)
  after-none (unchanged c) a h = absurd (cc h)
  after-none conflict a h = absurd (cc h)
  after-none bad_request a h = absurd (cc h)
  after-none unauthorized a h = absurd (cc h)

  answer-erased : (r : Request S T) (a c : Application S T) → answer r a ≡ erased c → Removes r a
  unfolding answer update_resource save_update resource_update metadata_update is_set is_nil
      delete_application update_application_binding update_application_complete
      update_application_shutdown update_application_status retry_application
  answer-erased (update now body) a c h = (ground (arith, h), ground (arith, h))
  answer-erased (delete force now) a c h = ground (arith, h)
  answer-erased (bind now cluster) a c h = absurd (cc h)
  answer-erased (complete now token) a c h = absurd (ground (arith, h))
  answer-erased (shutdown token) a c h = absurd (ground (arith, h))
  answer-erased (set_status body) a c h = absurd (cc h)
  answer-erased retry a c h = absurd (ground (arith, h))

  -- An application leaves the database only by a forced deletion, or by an update that leaves it
  -- without finalizers once its deletion is set.
  pub serve-none : (r : Request S T) (a : Application S T) → serve r a ≡ none → Removes r a
  unfolding serve answer
  serve-none r a h = let (c, removed) = after-none (answer r a) a h in answer-erased r a c removed
