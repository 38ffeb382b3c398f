-- ===== src/WorkQueue/Contents.antt =====
-- A predicate that holds for every value in a work queue.
use krake.Prelude.{ℕ, ◌≡◌, inl, inr, subst, Option, none, some, arith}
use krake.Prelude.Tests.{Bool-cases, Option-cases, nat_beq}
use krake.Prelude.Keys.{Keyed, ◌==◌}
use krake.Prelude.Dict
use krake.Prelude.Dict.{Dict, get-put, get-remove}
use krake.WorkQueue.{WorkQueue, got, put_key, put, fire, get, done}
use krake.WorkQueue.System.{get-eq-got}

module _ {K V : Type 0} ⦃e : Keyed K⦄ (P : V → Type 0) where
  abbrev pub AllValues : Dict K V → Type 0
  AllValues d = (k : K) (v : V) → Dict.get k d ≡ some v → P v

  -- Of the values that wait, and of those whose timer runs.
  pub record Holds (q : WorkQueue K V) : Type 0 where
    pub waiting : AllValues q.dirty
    pub timed : AllValues q.timers

  put-AllValues :
      (key : K) (value : V) (d : Dict K V)
      → P value
      → AllValues d
      → AllValues (Dict.put key value d)
  put-AllValues key value d p h k v e = elim (Bool-cases (key == k)) [
    | inl same ↦ subst P (ground (arith, get-put key k value d)) p
    | inr other ↦ h k v (ground (arith, get-put key k value d))
  ]

  remove-AllValues : (key : K) (d : Dict K V) → AllValues d → AllValues (Dict.remove key d)
  remove-AllValues key d h k v e = h k v (ground (arith, get-remove key k d))

  dirty-put_key :
      (key : K) (value : V) (q : WorkQueue K V)
      → ((put_key key value q).dirty ≡ Dict.put key value q.dirty)
        × ((put_key key value q).timers ≡ q.timers)
  unfolding put_key
  dirty-put_key key value q = (ground arith, ground arith)

  put_key-Holds :
      (key : K) (value : V) (q : WorkQueue K V) → P value → Holds q → Holds (put_key key value q)
  put_key-Holds key value q p h = record {
    waiting = rw ((dirty-put_key key value q).0) (put-AllValues key value q.dirty p h.waiting);
    timed = rw ((dirty-put_key key value q).1) h.timed;
  }

  pub put-Holds :
      (key : K) (value : V) (delay : Option ℕ) (q : WorkQueue K V)
      → P value
      → Holds q
      → Holds (put key value delay q)
  unfolding put
  put-Holds key value delay q p h =
      elim (Bool-cases (nat_beq (elim delay [ none ↦ q.debounce | some d ↦ d ]) 0)) [
        | inl now ↦ rw now (put_key-Holds key value q p h)
        | inr later ↦ rw later (record {
          waiting = h.waiting;
          timed =
              put-AllValues key value (Dict.remove key q.timers) p
                (remove-AllValues key q.timers h.timed);
        })
      ]

  -- A value that `get` returns satisfies what all values of the queue satisfy.
  pub got-Holds :
      (key : K) (value : V) (q q' : WorkQueue K V) → get q ≡ got key value q' → Holds q → P value
  got-Holds key value q q' e h = h.waiting key value (get-eq-got q key value q' e).stored

  pub get-Holds :
      (key : K) (value : V) (q q' : WorkQueue K V) → get q ≡ got key value q' → Holds q → Holds q'
  get-Holds key value q q' e h =
      let taken = get-eq-got q key value q' e in
      rw taken.after (record { waiting = remove-AllValues key q.dirty h.waiting; timed = h.timed })

  pub fire-Holds : (key : K) (q : WorkQueue K V) → Holds q → Holds (fire key q)
  unfolding fire
  fire-Holds key q h = elim (Option-cases (Dict.get key q.timers)) [
    | inl idle ↦ rw (idle, fire) h
    | inr (value, timer) ↦
        let h' = put_key-Holds key value q (h.timed key value timer) h in
        rw (timer, fire) (record { waiting = h'.waiting; timed = remove-AllValues key _ h'.timed })
  ]

  pub done-Holds : (key : K) (q : WorkQueue K V) → Holds q → Holds (done key q)
  unfolding done
  done-Holds key q h = record {
    waiting = rw (kept key q) h.waiting;
    timed = rw (kept_timers key q) h.timed;
  }
    where
      kept : (key : K) (q : WorkQueue K V) → (done key q).dirty ≡ q.dirty
      kept key q = ground arith

      kept_timers : (key : K) (q : WorkQueue K V) → (done key q).timers ≡ q.timers
      kept_timers key q = ground arith
