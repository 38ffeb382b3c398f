-- ===== src/WorkQueue.antt =====
-- krake/krake/controller/__init__.py: `WorkQueue`, the queue between a controller's reflectors
-- and its workers. `asyncio.Queue` is a list, oldest first, without a bound (`maxsize` is 0 at
-- every place that builds a work queue, so its `put` never waits). A timer holds the value
-- that its debounce task will put. A put with a delay is one step here: the source cancels the
-- key's timer, waits until it is gone and starts the next.
pub mod System
pub mod Order
pub mod Debounce
pub mod Contents
mod Examples
use krake.Prelude.{ℕ, ◌+◌, suc, Bool, true, false, Option, none, some, List, [], ◌∷◌, ◌++◌, ◌≡◌}
use krake.Prelude.Lists.{length}
use krake.Prelude.Tests.{if◌then◌else◌, nat_beq}
use krake.Prelude.Keys.{Keyed, ◌==◌, contains, add, discard}
use krake.Prelude.Dict
use krake.Prelude.Dict.{Dict}

pub record WorkQueue (K V : Type 0) : Type 0 where
  pub dirty : Dict K V
  pub timers : Dict K V
  pub active : List K
  pub queue : List K
  pub debounce : ℕ

-- What `get` does: wait on an empty queue, raise KeyError, or return a pair.
pub data Got (K V : Type 0) : Type 0 where
  waits : Got K V
  key_error : Got K V
  got : K → V → WorkQueue K V → Got K V

module _ {K V : Type 0} where
  unfoldable pub fresh : ℕ → WorkQueue K V
  fresh debounce = record { dirty = []; timers = []; active = []; queue = []; debounce = debounce }

module _ {K V : Type 0} ⦃e : Keyed K⦄ where
  -- _add_key_to_queue
  add_key_to_queue : K → WorkQueue K V → WorkQueue K V
  add_key_to_queue key q = record q { active = add key q.active; queue = q.queue ++ key ∷ [] }

  -- The inner coroutine `put_key`.
  pub put_key : K → V → WorkQueue K V → WorkQueue K V
  unfolding add_key_to_queue
  put_key key value q =
      let q' = record q { dirty = Dict.put key value q.dirty } in
      if contains key q.active then q' else add_key_to_queue key q'

  pub put : K → V → Option ℕ → WorkQueue K V → WorkQueue K V
  put key value delay q =
      let seconds : ℕ = elim delay [ none ↦ q.debounce | some d ↦ d ] in
      if nat_beq seconds 0
      then put_key key value q
      else record q { timers = Dict.put key value (Dict.remove key q.timers) }

  -- The sleep of the key's timer is over: `debounce` puts the value and `remove_timer` runs.
  pub fire : K → WorkQueue K V → WorkQueue K V
  fire key q = elim (Dict.get key q.timers) [
    | none ↦ q
    | some value ↦ let q' = put_key key value q in record q' { timers = Dict.remove key q'.timers }
  ]

  -- `value = self.dirty.pop(key)`
  take_value : K → List K → WorkQueue K V → Option V → Got K V
  take_value key rest q none = key_error
  take_value key rest q (some value) =
      got key value (record q { queue = rest; dirty = Dict.remove key q.dirty })

  take_first : List K → WorkQueue K V → Got K V
  unfolding take_value
  take_first [] q = waits
  take_first (key ∷ rest) q = take_value key rest q (Dict.get key q.dirty)

  unfoldable pub get : WorkQueue K V → Got K V
  unfolding take_first
  get q = take_first q.queue q

  pub done : K → WorkQueue K V → WorkQueue K V
  unfolding add_key_to_queue
  done key q =
      let q' = record q { active = discard key q.active } in
      if Dict.has key q.dirty then add_key_to_queue key q' else q'

  pub cancel : K → WorkQueue K V → WorkQueue K V
  cancel key q = record q { timers = Dict.remove key q.timers }

  pub close : WorkQueue K V → WorkQueue K V
  close q = record q { timers = [] }

  -- `len(self.dirty)`
  pub size : WorkQueue K V → ℕ
  size q = length q.dirty

  pub empty : WorkQueue K V → Bool
  unfolding size
  empty q = nat_beq (size q) 0
