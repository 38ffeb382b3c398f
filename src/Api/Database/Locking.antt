-- ===== src/Api/Database/Locking.antt =====
-- Optimistic locking: what a put or a delete answers after other clients have written.
use krake.Prelude.{
  ℕ, ◌≤◌, ◌<◌, String, ◌≡◌, ◌⊎◌, ◌↔◌, inl, inr, refl, ap, sym, subst, ◌∙◌, true, false, Option,
  none, some, arith,
}
use krake.Prelude.Tests.{nat_beq, nat_beq_iff, Bool-cases}
use krake.Prelude.Keys.{◌==◌, ==_iff, string_key}
use krake.Api.Database.{
  Kv, Compare, mod_is, Operation, put_key, delete_key, EtcdClient, Serializable, from_kv, Instance,
  done, key_modified, put_compare, put_failed, put_response, put,
}
use krake.Api.Database.Etcd.{
  modified_at, holds, written, operation_key, EtcdLaws, Later, now, after,
}

modified-written :
    {V : Type 0} (k : String) (v : V) (old : Option (Kv V)) (header : ℕ)
    → (written k v old header).mod_revision ≡ header
modified-written k v none header = refl
modified-written k v (some kv) header = refl

module _ {Store Value Model : Type 0} (etcd : EtcdClient Store Value) (laws : EtcdLaws etcd)
    (class : Serializable Model Value) where
  -- What a transaction does to one key: nothing, or it is deleted, or written at a new revision.
  abbrev Effect : Store → Store → String → Type 0
  Effect s t k =
      (etcd.range k t ≡ etcd.range k s)
      ⊎ ((etcd.range k t ≡ none) ⊎ (laws.header s < modified_at (etcd.range k t)))

  commit-Effect_own :
      (c : Compare) (op : Operation Value) (s : Store)
      → holds (λ j. etcd.range j s) c ≡ true
      → Effect s (etcd.commit c op s).1 (operation_key op)
  commit-Effect_own c (put_key k v) s ok =
      inr (inr (rw (laws.puts c k v s ok) (ground (arith, laws.newer c k v s ok))))
  commit-Effect_own c (delete_key k) s ok = inr (inl (laws.deletes c k s ok))

  commit-Effect :
      (c : Compare) (op : Operation Value) (s : Store) (k : String)
      → Effect s (etcd.commit c op s).1 k
  commit-Effect c op s k = elim (Bool-cases (holds (λ j. etcd.range j s) c)) [
    | inr failed ↦ inl (rw (laws.fails c op s failed) refl)
    | inl ok ↦ elim (Bool-cases (operation_key op == k)) [
      | inr other ↦ inl (laws.others c op s k other)
      | inl same ↦
          subst (Effect s (etcd.commit c op s).1) ((==_iff (operation_key op) k).0 same)
            (commit-Effect_own c op s ok)
    ]
  ]

  -- The pair of a key is still there, or the key is at another revision.
  pub record Kept (k : String) (kv : Kv Value) (t : Store) : Type 0 where
    pub bound : kv.mod_revision ≤ laws.header t
    pub same_or_other :
        (etcd.range k t ≡ some kv) ⊎ (¬ (modified_at (etcd.range k t) ≡ kv.mod_revision))

  pub range-positive :
      (k : String) (s : Store) (kv : Kv Value) → etcd.range k s ≡ some kv → 1 ≤ kv.mod_revision
  range-positive k s kv found =
      omega (arith, laws.positive k s kv found, laws.created_first k s kv found)

  Kept-commit :
      (k : String) (kv : Kv Value) (t : Store) (c : Compare) (op : Operation Value)
      → 1 ≤ kv.mod_revision
      → Kept k kv t
      → Kept k kv (etcd.commit c op t).1
  Kept-commit k kv t c op positive h = record {
    bound = omega (arith, h.bound, laws.later c op t);
    same_or_other = elim (commit-Effect c op t k) [
      | inl same ↦ rw same h.same_or_other
      | inr (inl gone) ↦ inr (rw gone (λ e. omega arith))
      | inr (inr newer) ↦ inr (λ e. omega (arith, h.bound))
    ];
  }

  pub Kept-Later :
      (k : String) (kv : Kv Value) (s t : Store)
      → etcd.range k s ≡ some kv
      → Later etcd s t
      → Kept k kv t
  Kept-Later k kv s t found now = record {
    bound = laws.bounded k s kv found;
    same_or_other = inl found;
  }
  Kept-Later k kv s t found (after {t = u} before c op) =
      Kept-commit k kv u c op (range-positive k s kv found) (Kept-Later k kv s u found before)

  -- The comparison of a pair that was read holds exactly when the pair is still there.
  mod_is_iff :
      (k : String) (kv : Kv Value) (s t : Store)
      → etcd.range k s ≡ some kv
      → Later etcd s t
      → (holds (λ j. etcd.range j t) (mod_is k kv.mod_revision) ≡ true) ↔ (etcd.range k t ≡ some kv)
  mod_is_iff k kv s t found later =
      let kept = Kept-Later k kv s t found later in
      let at : (nat_beq (modified_at (etcd.range k t)) kv.mod_revision ≡ true)
          ↔ (modified_at (etcd.range k t) ≡ kv.mod_revision) =
        nat_beq_iff (modified_at (etcd.range k t)) kv.mod_revision in
      (
        λ ok. elim kept.same_or_other [ inl same ↦ same | inr other ↦ absurd (other (at.0 ok)) ],
        λ same. at.1 (ap modified_at same),
      )

  -- An instance that was read from a pair, whatever was changed in its model since, but its key.
  pub record ReadFrom (k : String) (kv : Kv Value) (s : Store) (x : Instance Model) : Type 0 where
    pub at : etcd.range k s ≡ some kv
    pub key : class.etcd_key x.model ≡ k
    pub revision : x.revision ≡ some (from_kv kv)

  -- The comparison of a put of such an instance.
  put_compare-ReadFrom :
      (k : String) (kv : Kv Value) (s : Store) (x : Instance Model)
      → ReadFrom k kv s x
      → put_compare (class.etcd_key x.model) x.revision ≡ mod_is k kv.mod_revision
  unfolding put_compare
  put_compare-ReadFrom k kv s x h =
      rw (h.revision, h.key) (ground (arith, laws.version_positive k s kv h.at))

  put-ReadFrom :
      (k : String) (kv : Kv Value) (s t : Store) (x : Instance Model)
      → ReadFrom k kv s x
      → put etcd class x t
        ≡ put_response etcd class x
            (etcd.commit (mod_is k kv.mod_revision) (put_key k (class.serialize x.model)) t)
  unfolding put
  put-ReadFrom k kv s t x h = rw (put_compare-ReadFrom k kv s x h, h.key) refl

  put-holds :
      (k : String) (kv : Kv Value) (s t : Store) (x : Instance Model)
      → ReadFrom k kv s x
      → holds (λ j. etcd.range j t) (mod_is k kv.mod_revision) ≡ true
      → (y : Instance Model) × ((put etcd class x t).0 ≡ done y)
  unfolding put_response
  put-holds k kv s t x h ok = rw (put-ReadFrom k kv s t x h) (rw laws.succeeds (rw ok (_, refl)))

  put-fails :
      (k : String) (kv : Kv Value) (s t : Store) (x : Instance Model)
      → ReadFrom k kv s x
      → holds (λ j. etcd.range j t) (mod_is k kv.mod_revision) ≡ false
      → put etcd class x t ≡ (key_modified, t)
  unfolding put_response put_failed
  put-fails k kv s t x h failed =
      rw (put-ReadFrom k kv s t x h)
        (rw laws.succeeds (rw (failed, h.revision) (rw laws.fails refl)))

  -- An update of an instance that was read goes through exactly when, after everything that the
  -- other clients did in the meantime, the pair that was read is still the one in the store.
  -- Otherwise it is refused as modified and the store stays as it is.
  pub put-iff_unchanged :
      (k : String) (kv : Kv Value) (s t : Store) (x : Instance Model)
      → ReadFrom k kv s x
      → Later etcd s t
      → (((y : Instance Model) × ((put etcd class x t).0 ≡ done y)) ↔ (etcd.range k t ≡ some kv))
        × (¬ (etcd.range k t ≡ some kv) → put etcd class x t ≡ (key_modified, t))
  put-iff_unchanged k kv s t x h later =
      let test = mod_is_iff k kv s t h.at later in
      let c : Compare = mod_is k kv.mod_revision in
      elim (Bool-cases (holds (λ j. etcd.range j t) c)) [
        | inl ok ↦ (
          (λ _. test.0 ok, λ _. put-holds k kv s t x h ok),
          λ changed. absurd (changed (test.0 ok)),
        )
        | inr failed ↦
            let refused = put-fails k kv s t x h failed in
            (
              (
                λ (y, e). absurd (cc (e, ap (λ r. r.0) refused)),
                λ same. absurd (cc (failed, test.1 same)),
              ),
              λ changed. refused,
            )
      ]

  -- The pair was replaced.
  record Moved (k : String) (kv : Kv Value) (t : Store) : Type 0 where
    bound : kv.mod_revision ≤ laws.header t
    other : ¬ (modified_at (etcd.range k t) ≡ kv.mod_revision)

  Moved-Later :
      (k : String) (kv : Kv Value) (t u : Store)
      → 1 ≤ kv.mod_revision
      → Moved k kv t
      → Later etcd t u
      → Moved k kv u
  Moved-Later k kv t u positive h now = h
  Moved-Later k kv t u positive h (after {t = v} before c op) =
      let moved = Moved-Later k kv t v positive h before in
      record {
        bound = omega (arith, moved.bound, laws.later c op v);
        other = λ e. elim (commit-Effect c op v k) [
          | inl same ↦ moved.other (sym (ap modified_at same) ∙ e)
          | inr (inl gone) ↦ absurd (omega (arith, ap modified_at gone, e, positive))
          | inr (inr newer) ↦ absurd (omega (arith, newer, e, moved.bound))
        ];
      }

  -- A put that goes through replaces the pair.
  put-Moved :
      (k : String) (kv : Kv Value) (s t : Store) (x y : Instance Model)
      → ReadFrom k kv s x
      → Later etcd s t
      → (put etcd class x t).0 ≡ done y
      → Moved k kv (put etcd class x t).1
  unfolding put_response
  put-Moved k kv s t x y h later went =
      let c : Compare = mod_is k kv.mod_revision in
      let v = class.serialize x.model in
      elim (Bool-cases (holds (λ j. etcd.range j t) c)) [
        | inr failed ↦ absurd (cc (went, ap (λ r. r.0) (put-fails k kv s t x h failed)))
        | inl ok ↦
            let kept = Kept-Later k kv s t h.at later in
            rw (put-ReadFrom k kv s t x h) (
              rw laws.succeeds (
                rw ok (record {
                  bound = omega (arith, kept.bound, laws.later c (put_key k v) t);
                  other = λ e. absurd (
                      omega (
                        arith,
                        kept.bound,
                        laws.newer c k v t ok,
                        ap modified_at (laws.puts c k v t ok),
                        modified-written k v (etcd.range k t)
                            (laws.header (etcd.commit c (put_key k v) t).1),
                        e,
                      ));
                })))
      ]

  -- Of two clients that read the same pair and keep its key, once the write of one went through,
  -- that of the other is refused, whatever else happens between the reads and the two writes, and
  -- the refusal changes nothing.
  pub second-writer_refused :
      (k : String) (kv : Kv Value) (s t u : Store) (x x' y : Instance Model)
      → ReadFrom k kv s x
      → ReadFrom k kv s x'
      → Later etcd s t
      → (put etcd class x t).0 ≡ done y
      → Later etcd (put etcd class x t).1 u
      → put etcd class x' u ≡ (key_modified, u)
  second-writer_refused k kv s t u x x' y h h' later went after_put =
      let moved =
        Moved-Later k kv (put etcd class x t).1 u (range-positive k s kv h.at)
          (put-Moved k kv s t x y h later went) after_put in
      put-fails k kv s u x' h' (ground (arith, moved.other))
