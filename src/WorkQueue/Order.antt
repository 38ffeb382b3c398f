-- ===== src/WorkQueue/Order.antt =====
-- What the work queue promises to the workers: keys are processed strictly one at a time, in the
-- order in which they became pending, and no value that was put is lost.
use krake.Prelude.{
  ℕ, zero, suc, ◌≡◌, ◌≢◌, ◌⊎◌, inl, inr, refl, ap, true, false, Option, none, some, List, [], ◌∷◌,
  ◌++◌, arith,
}
use krake.Prelude.Lists.{length}
use krake.Prelude.Tests.{Bool-cases, Option-cases}
use krake.Prelude.Keys.{Keyed, ◌==◌, ==_iff, contains, count, count-eq-zero, count-pos}
use krake.Prelude.Dict
use krake.Prelude.Dict.{get-put, get-remove, has-put, has-remove, get_of_has}
use krake.WorkQueue.{
  WorkQueue, key_error, got, fresh, put_key, put, fire, take_first, get, done, cancel, close,
}
use krake.WorkQueue.System.{
  System, Step, put_step, fire_step, get_step, done_step, cancel_step, close_step, Reach, here,
  next, IsConsistent, get-eq-got, Step-IsConsistent, after_get, after_get-IsConsistent,
}

module _ {K V : Type 0} where
  abbrev pub start : ℕ → System K V
  start debounce = record { wq = fresh debounce; working = [] }

module _ {K V : Type 0} ⦃e : Keyed K⦄ where
  start-IsConsistent : (debounce : ℕ) → IsConsistent (start {K = K} {V = V} debounce)
  unfolding fresh Dict.has
  start-IsConsistent debounce = record {
    counted = λ k. refl;
    dirty_active = λ k h. cc;
    queued_dirty = λ k h. cc;
  }

  -- Every state that a new work queue and its workers reach is consistent.
  pub Reach-IsConsistent :
      (debounce : ℕ) {t : System K V} → Reach (start debounce) t → IsConsistent t
  Reach-IsConsistent debounce here = start-IsConsistent debounce
  Reach-IsConsistent debounce (next r st) = Step-IsConsistent st (Reach-IsConsistent debounce r)

  take_first-ne-key_error :
      (keys : List K) (q : WorkQueue K V)
      → ((k : K) → contains k keys ≡ true → Dict.has k q.dirty ≡ true)
      → take_first keys q ≢ key_error
  unfolding take_first Dict.has
  take_first-ne-key_error [] q h e = cc
  take_first-ne-key_error (j ∷ rest) q h e = ground (arith, h j, ==_iff j j)

  pub get-ne-key_error : (t : System K V) → IsConsistent t → get t.wq ≢ key_error
  unfolding get
  get-ne-key_error t h = take_first-ne-key_error t.queue t.wq h.queued_dirty

  pub got_idle :
      (t : System K V) (key : K) (value : V) (q : WorkQueue K V)
      → IsConsistent t
      → get t.wq ≡ got key value q
      → contains key t.working ≡ false
  got_idle t key value q h e =
      let taken = get-eq-got t.wq key value q e in
      ground
        (arith, h.counted key, ap (count key) taken.first, count-pos key t.working, ==_iff key key)

  -- In a reachable state `get` raises no KeyError, and a key that it returns is not worked on:
  -- a key is processed by one worker at a time.
  pub get_exclusive :
      (debounce : ℕ) (t : System K V)
      → Reach (start debounce) t
      → (get t.wq ≢ key_error)
        × ((key : K) (value : V) (q : WorkQueue K V)
            → get t.wq ≡ got key value q
            → contains key t.working ≡ false)
  get_exclusive debounce t r =
      let h = Reach-IsConsistent debounce r in
      (get-ne-key_error t h, λ key value q e. got_idle t key value q h e)

  -- A value that waits is not lost: the step either leaves the key with a value, or it is the
  -- `get` that returns the key with this very value.
  pub Step-value :
      {s t : System K V} (k : K) (v : V)
      → Step s t
      → Dict.get k s.dirty ≡ some v
      → (Dict.has k t.dirty ≡ true) ⊎ (get s.wq ≡ got k v t.wq)
  unfolding Dict.has put put_key fire done cancel close
  Step-value {s} k v (put_step key value delay) h =
      inl (ground (arith, get-put key k value s.dirty))
  Step-value {s} k v (fire_step key) h = elim (Option-cases (Dict.get key s.timers)) [
    | inl idle ↦ inl (rw (idle, fire) (ground arith))
    | inr (value, timer) ↦ inl (rw (timer, fire) (ground (arith, get-put key k value s.dirty)))
  ]
  Step-value {s} k v (get_step key value wq e) h =
      let taken = get-eq-got s.wq key value wq e in
      elim (Bool-cases (key == k)) [
        | inl same ↦ inr (ground (arith, ==_iff key k, taken.stored))
        | inr other ↦ inl (rw taken.after (ground (arith, get-remove key k s.dirty)))
      ]
  Step-value {s} k v (done_step key w) h = inl (ground arith)
  Step-value {s} k v (cancel_step key) h = inl (ground arith)
  Step-value {s} k v close_step h = inl (ground arith)

  -- In a reachable state a key with a waiting value stands in the queue, or a worker has it
  -- and will put it back by `done`.
  pub pending_somewhere :
      (debounce : ℕ) (t : System K V) (k : K)
      → Reach (start debounce) t
      → Dict.has k t.dirty ≡ true
      → (contains k t.queue ≡ true) ⊎ (contains k t.working ≡ true)
  pending_somewhere debounce t k r h =
      let c = Reach-IsConsistent debounce r in
      ground
        (arith, c.counted k, c.dirty_active k h, count-eq-zero k t.queue, count-eq-zero k t.working)

  -- A value that is put while a worker has the key does not queue the key a second time; the
  -- worker's `done` puts it at the end of the queue, with the new value.
  pub done-put_key :
      (debounce : ℕ) (t : System K V) (key : K) (value : V)
      → Reach (start debounce) t
      → contains key t.working ≡ true
      → ((put_key key value t.wq).queue ≡ t.queue)
        × ((done key (put_key key value t.wq)).queue ≡ t.queue ++ key ∷ [])
        × (Dict.get key (done key (put_key key value t.wq)).dirty ≡ some value)
  unfolding put_key done Dict.has
  done-put_key debounce t key value r w =
      let c = Reach-IsConsistent debounce r in
      let active : contains key t.active ≡ true =
        ground (arith, c.counted key, count-pos key t.working w) in
      (
        ground arith,
        ground (arith, get-put key key value t.dirty, ==_iff key key),
        ground (arith, get-put key key value t.dirty, ==_iff key key),
      )

  -- `n` calls of `get`, each of which returns.
  unfoldable pub gets : ℕ → System K V → Option (System K V)
  gets zero s = some s
  gets (suc n) s = elim (get s.wq) [
    | got key value q ↦ gets n (record { wq = q; working = key ∷ s.working })
    | _ ↦ none
  ]

  get-queue :
      (s : System K V) (key : K) (value : V) (rest : List K)
      → s.queue ≡ key ∷ rest
      → Dict.get key s.dirty ≡ some value
      → get s.wq ≡ got key value (after_get s key rest).wq
  unfolding get take_first
  get-queue s key value rest e v = rw (e, get) (rw (v, take_first))

  first-stored :
      (t : System K V) (key : K) (rest : List K)
      → IsConsistent t
      → t.queue ≡ key ∷ rest
      → (v : V) × (Dict.get key t.dirty ≡ some v)
  first-stored t key rest h e =
      get_of_has key t.dirty
        (h.queued_dirty key (ground (arith, ap (contains key) e, ==_iff key key)))

  -- In a consistent state a key with `n` keys before it in the queue is returned by the
  -- `n + 1`st call of `get` from there on, with the value that it has now, and none of these
  -- calls waits or raises.
  pub gets_reach :
      (t : System K V) (before after : List K) (key : K)
      → IsConsistent t
      → t.queue ≡ before ++ key ∷ after
      → (u : System K V) × (v : V) × (gets (length before) t ≡ some u)
        × (get u.wq ≡ got key v (after_get u key after).wq)
        × (Dict.get key t.dirty ≡ some v)
  unfolding gets
  gets_reach t [] after key h e =
      let (v, stored) = first-stored t key after h e in
      (t, v, refl, get-queue t key v after e stored, stored)
  gets_reach t (j ∷ before) after key h e =
      let rest = before ++ key ∷ after in
      let (w, first) = first-stored t j rest h e in
      let (u, v, ran, returned, stored) =
        gets_reach (after_get t j rest) before after key (after_get-IsConsistent t j rest e h)
          refl in
      (
        u,
        v,
        rw (get-queue t j w rest e first, gets) ran,
        returned,
        ground (arith, stored, get-remove j key t.dirty),
      )
