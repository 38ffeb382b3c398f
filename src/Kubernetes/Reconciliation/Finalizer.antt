-- ===== src/Kubernetes/Reconciliation/Finalizer.antt =====
-- The finalizer "kubernetes_resources_deletion" keeps the API from forgetting an application whose
-- resources are still on a cluster. It is saved before the first of them is touched.
use krake.Prelude.{
  ◌≡◌, Bool, true, false, not, ◌&&◌, ◌||◌, Option, none, some, List, [], ◌∷◌, ◌++◌, inl, inr, arith,
}
use krake.Prelude.Tests.{Bool-cases, Option-cases}
use krake.Prelude.Keys.{string_key, contains, contains-append, ==_refl}
use krake.Data.Core.{ResourceRef, ref_key}
use krake.Manifest.Results.{Result, type_error}
use krake.Manifest.Values.{Value}
use krake.Kubernetes.Applications.{Application, deletion_finalizer}
use krake.Kubernetes.Tasks.{
  Request, update_application, read_cluster, apply_resource, delete_resource, History, Environment,
  Reply, Task, continue, pure, throw, lift, required, send, fetch, ◌>>=◌,
}
use krake.Kubernetes.Tasks.Ends.{Ends, answer-Ends, lift-Ends, required-Ends, continue-Ends}
use krake.Kubernetes.Manifests.{
  applied_hooks, deleted_hooks, delete_resources, apply_resources, ensure_finalizer, apply_manifest,
  delete_manifest, delete_observed, leave_owner,
}
use krake.Manifest.Delta.Resources.{ResourceDelta}

-- A request that changes a resource on a cluster.
unfoldable pub touches : Request → Bool
touches (apply_resource v) = true
touches (delete_resource v) = true
touches _ = false

-- A request that saves the finalizer.
unfoldable pub saves : Request → Bool
saves (update_application app) = contains deletion_finalizer app.finalizers
saves _ = false

unfoldable pub saved : History → Bool
unfolding saves
saved [] = false
saved (r ∷ log) = saves r || saved log

-- No resource was touched before the finalizer was saved; `held` tells whether it was there at the
-- start.
unfoldable pub is_guarded : Bool → History → Bool
unfolding touches saved
is_guarded held [] = true
is_guarded held (r ∷ log) = (not (touches r) || held || saved log) && is_guarded held log

module _ (held : Bool) where
  abbrev pub Guarded : History → Type 0
  Guarded log = is_guarded held log ≡ true

  -- From here on any request is allowed.
  abbrev pub Safe : History → Type 0
  Safe log = (is_guarded held log ≡ true) × ((held || saved log) ≡ true)

  Safe-more : (r : Request) (log : History) → Safe log → Safe (r ∷ log)
  unfolding is_guarded saved
  Safe-more r log h = ground (arith, h)

  Guarded-more : (r : Request) (log : History) → touches r ≡ false → Guarded log → Guarded (r ∷ log)
  unfolding is_guarded
  Guarded-more r log plain h = ground (arith, plain, h)

  pub send-Safe :
      (env : Environment) (r : Request) (log : History)
      → Safe log
      → Ends Guarded (λ _. Safe) (send env r log)
  unfolding send
  send-Safe env r log h =
      let more = Safe-more r log h in
      answer-Ends Guarded (λ _. Safe) (env.failure (r ∷ log)) tt (r ∷ log) more.0 more

  fetch-Safe :
      (env : Environment) (r : Request) (log : History)
      → Safe log
      → Ends Guarded (λ _. Safe) (fetch env r log)
  unfolding fetch
  fetch-Safe env r log h =
      let more = Safe-more r log h in
      answer-Ends Guarded (λ _. Safe) (env.failure (r ∷ log)) (env.response (r ∷ log)) (r ∷ log)
        more.0 more

  pub send-Guarded :
      (env : Environment) (r : Request) (log : History)
      → touches r ≡ false
      → Guarded log
      → Ends Guarded (λ _. Guarded) (send env r log)
  unfolding send
  send-Guarded env r log plain h =
      let more = Guarded-more r log plain h in
      answer-Ends Guarded (λ _. Guarded) (env.failure (r ∷ log)) tt (r ∷ log) more more

  abbrev pub KeepsSafe {ℓ} : {A : Type ℓ} → Task A → Type 0
  KeepsSafe task = (log : History) → Safe log → Ends Guarded (λ _. Safe) (task log)

  -- The rest of a coroutine.
  pub then-Safe {ℓ κ} :
      {A : Type ℓ} {B : Type κ} (ended : Reply A × History) (next : A → Task B)
      → Ends Guarded (λ _. Safe) ended
      → ((a : A) → KeepsSafe (next a))
      → Ends Guarded (λ _. Safe) (continue ended next)
  then-Safe ended next h f = continue-Ends Guarded (λ _. Safe) (λ _. Safe) ended next h f

  pub lift-Safe {ℓ} : {A : Type ℓ} (res : Result A) → KeepsSafe (lift res)
  lift-Safe res log h = lift-Ends Guarded (λ _. Safe) res log h.0 (λ a e. h)

  pub required-Safe {ℓ} : {A : Type ℓ} (o : Option A) → KeepsSafe (required type_error o)
  required-Safe o log h = required-Ends Guarded (λ _. Safe) type_error o log h.0 (λ a. h)

  deleted_hooks-Safe :
      (env : Environment) (v : Value) (app : Application) → KeepsSafe (deleted_hooks env v app)
  unfolding deleted_hooks pure
  deleted_hooks-Safe env v app log h =
      then-Safe _ _ (lift-Safe _ log h) (λ a l s. then-Safe _ _ (lift-Safe _ l s) (λ a l s. s))

  applied_hooks-Safe :
      (env : Environment) (v r : Value) (app : Application) → KeepsSafe (applied_hooks env v r app)
  unfolding applied_hooks pure
  applied_hooks-Safe env v r app log h = then-Safe _ _ h (λ a l s.
      then-Safe _ _ (lift-Safe _ l s) (λ a l s.
        then-Safe _ _ (lift-Safe _ l s) (λ a l s. then-Safe _ _ (lift-Safe _ l s) (λ a l s. s))))

  delete_resources-Safe :
      (env : Environment) (vs : List Value) (app : Application)
      → KeepsSafe (delete_resources env vs app)
  unfolding delete_resources pure
  delete_resources-Safe env [] app log h = h
  delete_resources-Safe env (v ∷ vs) app log h =
      then-Safe _ _ (send-Safe env (delete_resource v) log h) (λ a l s.
        then-Safe _ _ (deleted_hooks-Safe env v app l s) (λ a. delete_resources-Safe env vs a))

  apply_resources-Safe :
      (env : Environment) (vs : List Value) (app : Application)
      → KeepsSafe (apply_resources env vs app)
  unfolding apply_resources pure
  apply_resources-Safe env [] app log h = h
  apply_resources-Safe env (v ∷ vs) app log h =
      then-Safe _ _ (fetch-Safe env (apply_resource v) log h) (λ r l s.
        then-Safe _ _ (applied_hooks-Safe env v r app l s) (λ a. apply_resources-Safe env vs a))

  ensure_finalizer-Safe :
      (env : Environment) (app : Application) → KeepsSafe (ensure_finalizer env app)
  unfolding ensure_finalizer pure
  ensure_finalizer-Safe env app log h =
      elim (Bool-cases (contains deletion_finalizer app.finalizers)) [
        | inl e ↦ rw e h
        | inr e ↦ rw e (then-Safe _ _ (send-Safe env _ log h) (λ a l s. s))
      ]

  pub apply_manifest-Safe :
      (env : Environment) (app : Application) (delta : ResourceDelta)
      → KeepsSafe (apply_manifest env app delta)
  unfolding apply_manifest pure
  apply_manifest-Safe env app delta log h =
      then-Safe _ _ (ensure_finalizer-Safe env app log h) (λ a l s.
        then-Safe _ _ (required-Safe a.scheduled_to l s) (λ c l s.
          then-Safe _ _ (send-Safe env (read_cluster c) l s) (λ u l s.
            then-Safe _ _ (delete_resources-Safe env delta.deleted a l s) (λ a l s.
              then-Safe _ _ (apply_resources-Safe env delta.new a l s) (λ a l s.
                then-Safe _ _ (apply_resources-Safe env delta.modified a l s) (λ a l s. s))))))

  added-Safe :
      (app : Application) (log : History)
      → Guarded log
      → let app = record app { finalizers = app.finalizers ++ deletion_finalizer ∷ [] } in
        Safe (update_application app ∷ log)
  unfolding is_guarded touches saved saves
  added-Safe app log h = ground (
    arith,
    h,
    contains-append deletion_finalizer app.finalizers (deletion_finalizer ∷ []),
    ==_refl deletion_finalizer,
  )

  add_finalizer-reaches :
      (env : Environment) (app : Application) (log : History)
      → Guarded log
      → let app = record app { finalizers = app.finalizers ++ deletion_finalizer ∷ [] } in
        Ends Guarded (λ _. Safe) ((send env (update_application app) >>= λ _. pure app) log)
  unfolding pure send
  add_finalizer-reaches env app log h =
      let more = added-Safe app log h in
      continue-Ends Guarded (λ _. Safe) (λ _. Safe) _ _
        (answer-Ends Guarded (λ _. Safe) _ tt _ more.0 more) (λ a l s. s)

  -- Where the finalizer was there at the start, or is added now.
  pub ensure_finalizer-reaches :
      (env : Environment) (app : Application) (log : History)
      → (contains deletion_finalizer app.finalizers ≡ true → held ≡ true)
      → Guarded log
      → Ends Guarded (λ _. Safe) (ensure_finalizer env app log)
  unfolding ensure_finalizer pure
  ensure_finalizer-reaches env app log from h =
      elim (Bool-cases (contains deletion_finalizer app.finalizers)) [
        | inl e ↦ rw e (h, ground (arith, from e))
        | inr e ↦ rw e (add_finalizer-reaches env app log h)
      ]

  leave_owner-Safe : (env : Environment) (app : Application) → KeepsSafe (leave_owner env app)
  unfolding leave_owner pure throw
  leave_owner-Safe env app log h = elim (Option-cases app.running_on) [
    | inl e ↦ rw e h
    | inr (ref, e) ↦ elim (Bool-cases (contains ref app.owners)) [
      | inl c ↦ rw (e, c) h
      | inr c ↦ rw (e, c) h.0
    ]
  ]

  delete_observed-Safe :
      (env : Environment) (o : Option ResourceRef) (vs : List Value) (app : Application)
      → KeepsSafe (delete_observed env o vs app)
  unfolding delete_observed pure
  delete_observed-Safe env none vs app log h = h
  delete_observed-Safe env (some cluster) [] app log h = h
  delete_observed-Safe env (some cluster) (v ∷ vs) app log h =
      then-Safe _ _ (send-Safe env (read_cluster cluster) log h)
        (λ u. delete_resources-Safe env (v ∷ vs) app)

  pub delete_manifest-Safe :
      (env : Environment) (app : Application) → KeepsSafe (delete_manifest env app)
  unfolding delete_manifest pure
  delete_manifest-Safe env app log h =
      then-Safe _ _ (delete_observed-Safe env app.running_on app.last_observed_manifest app log h)
        (λ a l s. then-Safe _ _ (leave_owner-Safe env a l s) (λ a l s. s))
