-- ===== src/GarbageCollector/Marked.antt =====
-- When a worker of the collector marks all dependents.
use krake.Prelude.{
  suc, ◌≤◌, ◌≡◌, ◌≢◌, ◌∙◌, refl, ap, sym, subst, Bool, true, false, none, some, List, [], ◌∷◌, ◌++◌,
  arith, map,
}
use krake.Prelude.Lists.{All, length}
use krake.Data.Core.{ResourceRef, ref_key}
use krake.DependencyGraph.{dependents, get_direct_dependents}
use krake.GarbageCollector.{
  Resource, GarbageCollector, Request, delete_resource, Turn, returned, Work, entry_at,
  after_request, mark_dependents, dispatch, resource_received,
}

-- A turn whose request succeeds, and that leaves the list as it is.
abbrev pub Steady : List ResourceRef → Turn → Type 0
Steady ds t = (t.fails ≡ false) × (t.listed ≡ ds)

entry_at-append :
    (front : List ResourceRef) (d : ResourceRef) (rest : List ResourceRef)
    → entry_at (length front) (front ++ d ∷ rest) ≡ some d
unfolding entry_at
entry_at-append [] d rest = refl
entry_at-append (x ∷ front) d rest = entry_at-append front d rest

entry_at-end : (front : List ResourceRef) → entry_at (length front) (front ++ []) ≡ none
unfolding entry_at
entry_at-end [] = refl
entry_at-end (x ∷ front) = entry_at-end front

append_assoc :
    (front : List ResourceRef) (d : ResourceRef) (rest : List ResourceRef)
    → front ++ d ∷ rest ≡ (front ++ d ∷ []) ++ rest
append_assoc [] d rest = refl
append_assoc (x ∷ front) d rest = ap (λ l. x ∷ l) (append_assoc front d rest)

length-snoc :
    (front : List ResourceRef) (d : ResourceRef) → suc (length front) ≡ length (front ++ d ∷ [])
length-snoc [] d = refl
length-snoc (x ∷ front) d = ap suc (length-snoc front d)

-- The loop went on to its end, with these requests.
abbrev Finished : List Request → Work → Type 0
Finished qs work = (work.requests ≡ qs) × (work.end ≡ returned)

Finished-after :
    (q : Request) (qs : List Request) (failed : Bool) (rest : Work)
    → failed ≡ false
    → Finished qs rest
    → Finished (q ∷ qs) (after_request q failed rest)
unfolding after_request
Finished-after q qs true rest h k = absurd (cc h)
Finished-after q qs false rest h k = (ap (λ l. q ∷ l) k.0, k.1)

mark-Finished :
    (front rest : List ResourceRef) (turns : List Turn)
    → All (Steady (front ++ rest)) turns
    → length rest ≤ length turns
    → Finished (map delete_resource rest) (mark_dependents (length front) (front ++ rest) turns)
unfolding mark_dependents
mark-Finished front [] [] steady enough = rw (mark_dependents, entry_at-end front) (refl, refl)
mark-Finished front [] (turn ∷ turns) steady enough =
    rw (mark_dependents, entry_at-end front) (refl, refl)
mark-Finished front (d ∷ rest) [] steady enough = absurd (omega (arith, enough))
mark-Finished front (d ∷ rest) (turn ∷ turns) steady enough =
    rw (mark_dependents, entry_at-append front d rest)
      (Finished-after (delete_resource d) (map delete_resource rest) turn.fails _ steady.0.0 (
        subst
          (λ l. Finished (map delete_resource rest) (mark_dependents (suc (length front)) l turns))
          (sym (steady.0.1 ∙ append_assoc front d rest))
          (subst
            (λ i.
              Finished (map delete_resource rest)
                (mark_dependents i ((front ++ d ∷ []) ++ rest) turns))
            (sym (length-snoc front d))
            (mark-Finished (front ++ d ∷ []) rest turns
              (subst (λ l. All (Steady l) turns) (append_assoc front d rest) steady.1)
              (omega (arith, enough))))))

dispatch-Finished :
    (ds : List ResourceRef) (r : Resource) (turns : List Turn)
    → ds ≢ []
    → All (Steady ds) turns
    → length ds ≤ length turns
    → Finished (map delete_resource ds) (dispatch ds r turns)
unfolding dispatch
dispatch-Finished [] r turns some_left steady enough = absurd (some_left refl)
dispatch-Finished (d ∷ ds) r turns some_left steady enough =
    mark-Finished [] (d ∷ ds) turns steady enough

-- If the requests succeed, and the list of dependents stays as it is during each of them, then a
-- worker requests the deletion of every dependent of the resource, in order, and comes to its end.
pub every_dependent_deleted :
    (c : GarbageCollector) (r : Resource) (turns : List Turn)
    → dependents r.ref c.graph ≢ []
    → All (Steady (dependents r.ref c.graph)) turns
    → length (dependents r.ref c.graph) ≤ length turns
    → ((resource_received r turns c).0.requests ≡ map delete_resource (dependents r.ref c.graph))
      × ((resource_received r turns c).0.end ≡ returned)
unfolding resource_received get_direct_dependents
every_dependent_deleted c r turns some_left steady enough =
    dispatch-Finished (dependents r.ref c.graph) r turns some_left steady enough
