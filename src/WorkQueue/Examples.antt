-- ===== src/WorkQueue/Examples.antt =====
-- Small runs of the work queue, and the theorems at concrete inputs.
use krake.Prelude.{ℕ, String, ◌≡◌, ◌≢◌, ◌⊎◌, refl, true, false, none, some, [], ◌∷◌, arith}
use krake.Prelude.Keys.{contains, string_key}
use krake.Prelude.Dict
use krake.WorkQueue.{WorkQueue, key_error, got, fresh, put_key, put, fire, get, done, size, empty}
use krake.WorkQueue.System.{
  System, put_step, get_step, Reach, here, next, IsConsistent, Step-IsConsistent, after_get,
}
use krake.WorkQueue.Order.{
  start, gets, Reach-IsConsistent, get_exclusive, pending_somewhere, done-put_key, gets_reach,
}
use krake.WorkQueue.Debounce.{put-put}

program : Unit {0}
unfolding fresh put_key put fire get done size empty gets Dict.get Dict.has Dict.put Dict.remove
program = tt

abbrev waiting : System String ℕ
waiting = record (start 0) { wq = put "a" 1 none (start {K = String} {V = ℕ} 0).wq }

abbrev busy : System String ℕ
busy = record {
  wq = record { dirty = []; timers = []; active = "a" ∷ []; queue = []; debounce = 0 };
  working = "a" ∷ [];
}

waiting-Reach : Reach (start 0) waiting
waiting-Reach = next here (put_step "a" 1 none)

get-waiting : get waiting.wq ≡ got "a" 1 busy.wq
unfolding program
get-waiting = refl

busy-Reach : Reach (start 0) busy
busy-Reach = next waiting-Reach (get_step "a" 1 busy.wq get-waiting)

-- Two values of one key, put while a worker has it, make one entry, with the newer value.
coalesced :
    get (done "a" (put "a" 3 none (put "a" 2 none busy.wq)))
    ≡ got "a" 3 (record { dirty = []; timers = []; active = "a" ∷ []; queue = []; debounce = 0 })
unfolding program
coalesced = refl

sizes : (size (put "a" 3 none (put "b" 2 none busy.wq)) ≡ 2) × (empty (done "a" busy.wq) ≡ true)
unfolding program
sizes = (refl, refl)

Step-IsConsistent_example : IsConsistent busy
Step-IsConsistent_example =
    Step-IsConsistent {s = waiting} {t = busy} (get_step "a" 1 busy.wq get-waiting)
      (Reach-IsConsistent 0 waiting-Reach)

get_exclusive_example :
    (get busy.wq ≢ key_error)
    × ((key : String) (value : ℕ) (q : WorkQueue String ℕ)
        → get busy.wq ≡ got key value q
        → contains key busy.working ≡ false)
get_exclusive_example = get_exclusive 0 busy busy-Reach

pending_somewhere_example :
    (contains "a" waiting.queue ≡ true) ⊎ (contains "a" waiting.working ≡ true)
unfolding program
pending_somewhere_example = pending_somewhere 0 waiting "a" waiting-Reach refl

done-put_key_example :
    ((put_key "a" 2 busy.wq).queue ≡ [])
    × ((done "a" (put_key "a" 2 busy.wq)).queue ≡ "a" ∷ [])
    × (Dict.get "a" (done "a" (put_key "a" 2 busy.wq)).dirty ≡ some 2)
done-put_key_example = done-put_key 0 busy "a" 2 busy-Reach refl

abbrev two_waiting : System String ℕ
two_waiting = record waiting { wq = put "b" 2 none waiting.wq }

gets_reach_example :
    (u : System String ℕ) × (v : ℕ) × (gets 1 two_waiting ≡ some u)
    × (get u.wq ≡ got "b" v (after_get u "b" []).wq)
    × (Dict.get "b" two_waiting.dirty ≡ some v)
unfolding program
gets_reach_example =
    gets_reach two_waiting ("a" ∷ []) [] "b"
      (Reach-IsConsistent 0 (next waiting-Reach (put_step "b" 2 none))) refl

debounced : put "a" 2 (some 5) (put "a" 1 (some 3) busy.wq) ≡ put "a" 2 (some 5) busy.wq
debounced = put-put "a" 1 2 3 5 busy.wq (omega arith) (omega arith)
