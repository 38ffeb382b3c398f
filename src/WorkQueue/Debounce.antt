-- ===== src/WorkQueue/Debounce.antt =====
-- Debouncing: of the puts with a delay, only the last one reaches the queue.
use krake.Prelude.{ℕ, ◌≡◌, ◌≢◌, none, some, false, arith}
use krake.Prelude.Tests.{nat_beq}
use krake.Prelude.Keys.{Keyed, ==_iff}
use krake.Prelude.Dict
use krake.Prelude.Dict.{Dict, get-put, get-remove, remove-put, remove-remove}
use krake.WorkQueue.{WorkQueue, put_key, put, fire}

nat_beq-zero : (d : ℕ) → d ≢ 0 → nat_beq d 0 ≡ false
nat_beq-zero d h = ground arith

module _ {K V : Type 0} ⦃e : Keyed K⦄ where
  remove-put-remove :
      (key : K) (v : V) (timers : Dict K V)
      → Dict.remove key (Dict.put key v (Dict.remove key timers)) ≡ Dict.remove key timers
  remove-put-remove key v timers = rw remove-put (remove-remove key timers)

  -- A put with a delay replaces what an earlier put with a delay of the key has scheduled: the
  -- two leave the state of the second alone.
  pub put-put :
      (key : K) (old new : V) (d₁ d₂ : ℕ) (q : WorkQueue K V)
      → d₁ ≢ 0
      → d₂ ≢ 0
      → put key new (some d₂) (put key old (some d₁) q) ≡ put key new (some d₂) q
  unfolding put
  put-put key old new d₁ d₂ q h₁ h₂ =
      simp (nat_beq-zero d₁ h₁, nat_beq-zero d₂ h₂, remove-put-remove)

  -- When the timer of a put with a delay that is not zero is over, the value is put as it would
  -- have been without a delay, and no timer of the key is left.
  pub fire-put :
      (key : K) (value : V) (d : ℕ) (q : WorkQueue K V)
      → d ≢ 0
      → ((fire key (put key value (some d) q)).dirty ≡ (put key value (some 0) q).dirty)
        × ((fire key (put key value (some d) q)).active ≡ (put key value (some 0) q).active)
        × ((fire key (put key value (some d) q)).queue ≡ (put key value (some 0) q).queue)
        × (Dict.get key (fire key (put key value (some d) q)).timers ≡ none)
  unfolding fire put put_key
  fire-put key value d q h = (
    ground (arith, get-put key key value (Dict.remove key q.timers), ==_iff key key),
    ground (arith, get-put key key value (Dict.remove key q.timers), ==_iff key key),
    ground (arith, get-put key key value (Dict.remove key q.timers), ==_iff key key),
    ground (
      arith,
      get-put key key value (Dict.remove key q.timers),
      get-remove key key (Dict.put key value (Dict.remove key q.timers)),
      ==_iff key key,
    ),
  )
