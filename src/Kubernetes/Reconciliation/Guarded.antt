-- ===== src/Kubernetes/Reconciliation/Guarded.antt =====
-- No reconciliation and no migration touches a cluster before the finalizer is saved.
use krake.Prelude.{String, ◌≡◌, refl, ◌∙◌, subst, Bool, true, false, List, [], inl, inr}
use krake.Prelude.Tests.{if◌then◌else◌, Bool-cases, Option-cases}
use krake.Prelude.Keys.{string_key, contains}
use krake.Manifest.Results.{Result, ok}
use krake.Manifest.Values.{Value}
use krake.Manifest.Delta.Resources.{ResourceDelta}
use krake.Kubernetes.Applications.{Application, deletion_finalizer}
use krake.Kubernetes.Tasks.{read_cluster, History, Environment, Reply, Task, continue, pure, throw}
use krake.Kubernetes.Tasks.Ends.{Ends, lift-Ends, weaken-Ends, continue-Ends, history-Ends}
use krake.Kubernetes.Reconciliation.{
  reconcile_application, migrate_application, translate_tosca, prepare_manifests, delta_of,
  apply_delta, no_change, is_empty,
}
use krake.Kubernetes.Reconciliation.Finalizer.{
  is_guarded, touches, Guarded, Safe, then-Safe, send-Safe, send-Guarded, apply_manifest-Safe,
  delete_manifest-Safe, ensure_finalizer-reaches, required-Safe, lift-Safe,
}

module _ (env : Environment) (mangle : Application → Result Application)
    (translate : Application → Result (List Value))
    (mangled : (a m : Application) → mangle a ≡ ok m → m.finalizers ≡ a.finalizers)
    (held : Bool) where
  -- Nothing was touched yet, and the finalizers are as they were.
  abbrev Untouched : List String → Application → History → Type 0
  Untouched finalizers app log = Guarded held log × (app.finalizers ≡ finalizers)

  abbrev Plain {ℓ} : {A : Type ℓ} → A → History → Type 0
  Plain a = Guarded held

  then-Untouched {ℓ κ} :
      {A : Type ℓ} {B : Type κ} (P : A → History → Type 0) (Q : B → History → Type 0)
      (ended : Reply A × History) (next : A → Task B)
      → Ends (Guarded held) P ended
      → ((a : A) (log : History) → P a log → Ends (Guarded held) Q (next a log))
      → Ends (Guarded held) Q (continue ended next)
  then-Untouched P Q ended next h f = continue-Ends (Guarded held) P Q ended next h f

  translate-Untouched :
      (app : Application) (log : History)
      → Guarded held log
      → Ends
          (Guarded held)
          (Untouched app.finalizers)
          (translate_tosca env mangle translate app log)
  unfolding translate_tosca pure throw touches
  translate-Untouched app log h = elim (Bool-cases (is_empty app.manifest)) [
    | inr e ↦ rw e (h, refl)
    | inl e ↦ elim (Bool-cases app.has_template) [
      | inr t ↦ rw (e, t) h
      | inl t ↦
          rw (e, t)
            (then-Untouched Plain (Untouched app.finalizers) _ _
              (send-Guarded held env _ log refl h)
              (λ u l g.
                then-Untouched Plain (Untouched app.finalizers) _ _
                  (lift-Ends (Guarded held) Plain _ l g (λ a e. g))
                  (λ m l g.
                    then-Untouched Plain (Untouched app.finalizers) _ _
                      (send-Guarded held env _ l refl g) (λ u l g. (g, refl)))))
    ]
  ]

  prepare-Untouched :
      (app : Application) (log : History)
      → Guarded held log
      → Ends
          (Guarded held)
          (Untouched app.finalizers)
          (prepare_manifests env mangle translate app log)
  unfolding prepare_manifests
  prepare-Untouched app log h =
      then-Untouched Plain (Untouched app.finalizers) _ _
        (lift-Ends (Guarded held) Plain _ log h (λ a e. h))
        (λ schema l g.
          then-Untouched Plain (Untouched app.finalizers) _ _
            (lift-Ends (Guarded held) Plain _ l g (λ a e. g))
            (λ applied l g.
              lift-Ends (Guarded held) (Untouched app.finalizers) _ l g
                (λ m e. (g, mangled _ m e))))

  delta-Guarded :
      (app : Application) (log : History)
      → Guarded held log
      → Ends (Guarded held) Plain (delta_of env mangle translate app log)
  unfolding delta_of pure
  delta-Guarded app log h = elim (Bool-cases (is_empty app.last_observed_manifest)) [
    | inl e ↦ rw e h
    | inr e ↦ rw e (lift-Ends (Guarded held) Plain _ log h (λ a e. h))
  ]

  apply_delta-Guarded :
      (app : Application) (delta : ResourceDelta) (log : History)
      → (contains deletion_finalizer app.finalizers ≡ true → held ≡ true)
      → Guarded held log
      → Ends (Guarded held) Plain (apply_delta env mangle translate app delta log)
  unfolding apply_delta pure
  apply_delta-Guarded app delta log from h =
      weaken-Ends (Guarded held) (λ _. Safe held) Plain _
        (then-Safe held _ _ (ensure_finalizer-reaches held env app log from h) (λ a l s.
          then-Safe held _ _ (send-Safe held env _ l s) (λ u l s.
            then-Safe held _ _ (apply_manifest-Safe held env _ delta l s)
              (λ a l s. then-Safe held _ _ (send-Safe held env _ l s) (λ u l s. s)))))
        (λ a l s. s.0)

  changed-Guarded :
      (b : Bool) (app : Application) (delta : ResourceDelta) (log : History)
      → (contains deletion_finalizer app.finalizers ≡ true → held ≡ true)
      → Guarded held log
      → Ends
          (Guarded held)
          Plain
          ((if b then pure app else apply_delta env mangle translate app delta) log)
  unfolding pure
  changed-Guarded true app delta log from h = h
  changed-Guarded false app delta log from h = apply_delta-Guarded app delta log from h

  reconcile-Guarded :
      (app : Application) (log : History)
      → (contains deletion_finalizer app.finalizers ≡ true → held ≡ true)
      → Guarded held log
      → Ends (Guarded held) Plain (reconcile_application env mangle translate app log)
  unfolding reconcile_application pure throw touches
  reconcile-Guarded app log from h = elim (Option-cases app.scheduled_to) [
    | inl e ↦ rw e h
    | inr (cluster, e) ↦ rw e (
        then-Untouched Plain Plain _ _ (send-Guarded held env (read_cluster cluster) log refl h)
          (λ u l g.
            then-Untouched (Untouched app.finalizers) Plain _ _ (translate-Untouched _ l g)
              (λ a l p.
                then-Untouched (Untouched a.finalizers) Plain _ _ (prepare-Untouched a l p.0)
                  (λ m l q. then-Untouched Plain Plain _ _ (delta-Guarded m l q.0) (λ d l g.
                    changed-Guarded (no_change d) m d l
                      (λ has.
                        from (subst (λ fs. contains deletion_finalizer fs ≡ true) (q.1 ∙ p.1) has))
                      g)))))
  ]

  prepare-Safe :
      (app : Application) (log : History)
      → Safe held log
      → Ends (Guarded held) (λ _. Safe held) (prepare_manifests env mangle translate app log)
  unfolding prepare_manifests
  prepare-Safe app log h =
      then-Safe held _ _ (lift-Safe held _ log h)
        (λ a l s. then-Safe held _ _ (lift-Safe held _ l s) (λ a. lift-Safe held _))

  migrate-Guarded :
      (app : Application) (log : History)
      → (contains deletion_finalizer app.finalizers ≡ true → held ≡ true)
      → Guarded held log
      → Ends (Guarded held) Plain (migrate_application env mangle translate app log)
  unfolding migrate_application pure
  migrate-Guarded app log from h =
      weaken-Ends (Guarded held) (λ _. Safe held) Plain _
        (then-Safe held _ _ (ensure_finalizer-reaches held env app log from h) (λ a l s.
          then-Safe held _ _ (send-Safe held env _ l s) (λ u l s.
            then-Safe held _ _ (delete_manifest-Safe held env _ l s) (λ a l s.
              then-Safe held _ _ (required-Safe held _ l s) (λ c l s.
                then-Safe held _ _ (send-Safe held env _ l s) (λ u l s.
                  then-Safe held _ _ (prepare-Safe a l s) (λ a l s.
                    then-Safe held _ _ (apply_manifest-Safe held env _ _ l s) (λ a l s.
                      then-Safe held _ _ (send-Safe held env _ l s) (λ u l s.
                        then-Safe held _ _ (send-Safe held env _ l s) (λ u l s. s))))))))))
        (λ a l s. s.0)

-- Whatever the Krake API and the cluster answer, and whatever fails: a reconciliation or a
-- migration that starts without requests sends no request that creates, changes or deletes a
-- resource of the application on a cluster before a request that saves the application with the
-- finalizer, unless the application had it from the start. The mangling hooks, which are given,
-- leave the finalizers as they are.
pub reconciled-Guarded :
    (env : Environment) (mangle : Application → Result Application)
    (translate : Application → Result (List Value)) (app : Application)
    → ((a m : Application) → mangle a ≡ ok m → m.finalizers ≡ a.finalizers)
    → let held = contains deletion_finalizer app.finalizers in
      (is_guarded held (reconcile_application env mangle translate app []).1 ≡ true)
      × (is_guarded held (migrate_application env mangle translate app []).1 ≡ true)
unfolding is_guarded
reconciled-Guarded env mangle translate app mangled =
    let held = contains deletion_finalizer app.finalizers in
    (
      history-Ends (Guarded held) _
          (reconcile-Guarded env mangle translate mangled held app [] (λ e. e) refl),
      history-Ends (Guarded held) _
          (migrate-Guarded env mangle translate mangled held app [] (λ e. e) refl),
    )
