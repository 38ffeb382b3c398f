-- ===== src/WorkQueue/System.antt =====
-- The work queue together with the workers: `working` holds the keys that `get` returned and
-- for which `done` was not called yet. The workers of the controllers call `done` for the key
-- that they got, once.
use krake.Prelude.{ℕ, ◌+◌, ◌≡◌, refl, ap, inl, inr, true, Option, none, some, List, [], ◌∷◌, arith}
use krake.Prelude.Tests.{if◌then◌else◌, Bool-cases, Option-cases, nat_beq}
use krake.Prelude.Keys.{
  Keyed, ==_iff, contains, count, remove_first, discard, count-remove_first, contains-append,
  count-append, contains-add, contains-discard, count-pos,
}
use krake.Prelude.Dict
use krake.Prelude.Dict.{Dict, has-put, has-remove}
use krake.WorkQueue.{WorkQueue, got, take_first, put_key, put, fire, get, done, cancel, close}

pub record System (K V : Type 0) : Type 0 where
  pub wq : WorkQueue K V
  pub open wq use *
  pub working : List K

module _ {K V : Type 0} ⦃e : Keyed K⦄ where
  pub data Step (s : System K V) : System K V → Type 0 where
    put_step :
        (key : K) (value : V) (delay : Option ℕ)
        → Step s (record s { wq = put key value delay s.wq })
    fire_step : (key : K) → Step s (record s { wq = fire key s.wq })
    get_step :
        (key : K) (value : V) (wq : WorkQueue K V)
        → get s.wq ≡ got key value wq
        → Step s (record { wq = wq; working = key ∷ s.working })
    done_step :
        (key : K)
        → contains key s.working ≡ true
        → Step s (record { wq = done key s.wq; working = remove_first key s.working })
    cancel_step : (key : K) → Step s (record s { wq = cancel key s.wq })
    close_step : Step s (record s { wq = close s.wq })

  pub data Reach (s : System K V) : System K V → Type 0 where
    here : Reach s s
    next : {t u : System K V} → Reach s t → Step t u → Reach s u

  -- A key is active exactly once it stands in the queue or is worked on, and never in both or
  -- twice; a key in the queue has a value, and a key with a value is active.
  pub record IsConsistent (s : System K V) : Type 0 where
    pub counted :
        (k : K) → count k s.queue + count k s.working ≡ (if contains k s.active then 1 else 0)
    pub dirty_active : (k : K) → Dict.has k s.dirty ≡ true → contains k s.active ≡ true
    pub queued_dirty : (k : K) → contains k s.queue ≡ true → Dict.has k s.dirty ≡ true

  put_key-IsConsistent :
      (s : System K V) (key : K) (value : V)
      → IsConsistent s
      → IsConsistent (record s { wq = put_key key value s.wq })
  unfolding put_key
  put_key-IsConsistent s key value h = record {
    counted = λ k. ground (
      arith,
      h.counted k,
      h.counted key,
      count-append k s.queue (key ∷ []),
      contains-add k key s.active,
      ==_iff key k,
    );
    dirty_active = λ k. ground (
      arith,
      h.dirty_active k,
      has-put key k value s.dirty,
      contains-add k key s.active,
      ==_iff key k,
    );
    queued_dirty = λ k. ground (
      arith,
      h.queued_dirty k,
      has-put key k value s.dirty,
      contains-append k s.queue (key ∷ []),
      ==_iff key k,
    );
  }

  put-IsConsistent :
      (s : System K V) (key : K) (value : V) (delay : Option ℕ)
      → IsConsistent s
      → IsConsistent (record s { wq = put key value delay s.wq })
  unfolding put
  put-IsConsistent s key value delay h =
      elim (Bool-cases (nat_beq (elim delay [ none ↦ s.debounce | some d ↦ d ]) 0)) [
        | inl now ↦ rw now (put_key-IsConsistent s key value h)
        | inr later ↦ rw later (record {
          counted = h.counted;
          dirty_active = h.dirty_active;
          queued_dirty = h.queued_dirty;
        })
      ]

  abbrev with_timers : (s : System K V) (timers : Dict K V) → System K V
  with_timers s timers = record s { wq = record s.wq { timers = timers } }

  timers-IsConsistent :
      (s : System K V) (timers : Dict K V) → IsConsistent s → IsConsistent (with_timers s timers)
  timers-IsConsistent s timers h = record {
    counted = h.counted;
    dirty_active = h.dirty_active;
    queued_dirty = h.queued_dirty;
  }

  fire-IsConsistent :
      (s : System K V) (key : K) → IsConsistent s → IsConsistent (record s { wq = fire key s.wq })
  unfolding fire
  fire-IsConsistent s key h = elim (Option-cases (Dict.get key s.timers)) [
    | inl idle ↦ rw (idle, fire) h
    | inr (value, timer) ↦
        rw (timer, fire)
          (timers-IsConsistent (record s { wq = put_key key value s.wq }) _
            (put_key-IsConsistent s key value h))
  ]

  -- What a `get` that returns has done.
  pub record Taken (q : WorkQueue K V) (key : K) (value : V) (q' : WorkQueue K V) : Type 0 where
    pub rest : List K
    pub first : q.queue ≡ key ∷ rest
    pub stored : Dict.get key q.dirty ≡ some value
    pub after : q' ≡ record q { queue = rest; dirty = Dict.remove key q.dirty }

  take_first-eq-got :
      (keys : List K) (q : WorkQueue K V) (key : K) (value : V) (q' : WorkQueue K V)
      → take_first keys q ≡ got key value q'
      → q.queue ≡ keys
      → Taken q key value q'
  unfolding take_first
  take_first-eq-got [] q key value q' h e = cc
  take_first-eq-got (j ∷ rest) q key value q' h e = record {
    rest = rest;
    first = ground arith;
    stored = ground arith;
    after = ground arith;
  }

  pub get-eq-got :
      (q : WorkQueue K V) (key : K) (value : V) (q' : WorkQueue K V)
      → get q ≡ got key value q'
      → Taken q key value q'
  unfolding get
  get-eq-got q key value q' h = take_first-eq-got q.queue q key value q' h refl

  -- The state after a `get` of the first key.
  abbrev pub after_get : System K V → K → List K → System K V
  after_get s key rest = record {
    wq = record s.wq { queue = rest; dirty = Dict.remove key s.dirty };
    working = key ∷ s.working;
  }

  pub after_get-IsConsistent :
      (s : System K V) (key : K) (rest : List K)
      → s.queue ≡ key ∷ rest
      → IsConsistent s
      → IsConsistent (after_get s key rest)
  after_get-IsConsistent s key rest e h = record {
    counted = λ k. ground (arith, h.counted k, ap (count k) e);
    dirty_active = λ k. ground (arith, h.dirty_active k, has-remove key k s.dirty);
    queued_dirty = λ k. ground (
      arith,
      h.queued_dirty k,
      h.counted k,
      has-remove key k s.dirty,
      ap (contains k) e,
      ap (count k) e,
      count-pos k rest,
      ==_iff key k,
    );
  }

  done-IsConsistent :
      (s : System K V) (key : K)
      → contains key s.working ≡ true
      → IsConsistent s
      → IsConsistent (record { wq = done key s.wq; working = remove_first key s.working })
  unfolding done
  done-IsConsistent s key w h = record {
    counted = λ k. ground (
      arith,
      h.counted k,
      h.counted key,
      count-remove_first key k s.working w,
      count-pos key s.working w,
      count-append k s.queue (key ∷ []),
      contains-add k key (discard key s.active),
      contains-discard k key s.active,
      ==_iff key k,
    );
    dirty_active = λ k. ground (
      arith,
      h.dirty_active k,
      contains-add k key (discard key s.active),
      contains-discard k key s.active,
      ==_iff key k,
    );
    queued_dirty =
        λ k. ground (arith, h.queued_dirty k, contains-append k s.queue (key ∷ []), ==_iff key k);
  }

  -- Every step of the queue and its workers keeps the state consistent.
  pub Step-IsConsistent : {s t : System K V} → Step s t → IsConsistent s → IsConsistent t
  Step-IsConsistent {s} (put_step key value delay) h = put-IsConsistent s key value delay h
  Step-IsConsistent {s} (fire_step key) h = fire-IsConsistent s key h
  Step-IsConsistent {s} (get_step key value wq e) h =
      let taken = get-eq-got s.wq key value wq e in
      rw taken.after (after_get-IsConsistent s key taken.rest taken.first h)
  Step-IsConsistent {s} (done_step key w) h = done-IsConsistent s key w h
  Step-IsConsistent {s} (cancel_step key) h = unfold cancel in timers-IsConsistent s _ h
  Step-IsConsistent {s} close_step h = unfold close in timers-IsConsistent s _ h
