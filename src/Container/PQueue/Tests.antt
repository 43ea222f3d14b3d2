-- ===== src/Container/PQueue/Tests.antt =====
-- Runs of container/pqueue.h, and its theorems at concrete inputs.
use selib.Prelude.{ℕ, ◌≡◌, refl, true, false, none, some, List, [], ◌∷◌}
use selib.Container.PQueue.{PQueue, create, push, reserve, is_full}
use selib.Container.PQueue.Laws.{create-Shows}
use selib.Container.PQueue.Race.{push_around_front, front_between}
use selib.Container.PQueue.Refine.{
  Op, put, get, finish, ask, stored, got, finished, answer, run, list_run, list_step, list_get,
  list_put, queue_refines,
}

abbrev calls : List (Op ℕ)
calls =
    get
    ∷ put true 7
    ∷ get
    ∷ put true 8
    ∷ get
    ∷ put false 9
    ∷ finish true 0
    ∷ ask
    ∷ get
    ∷ ask
    ∷ get
    ∷ []

list_run-calls :
    list_run [] false calls
    ≡ got none
      ∷ stored true
      ∷ got none
      ∷ stored true
      ∷ got (some 7)
      ∷ stored false
      ∷ finished
      ∷ answer false
      ∷ got (some 8)
      ∷ answer true
      ∷ got none
      ∷ []
unfolding list_run list_step list_get list_put
list_run-calls = refl

queue_refines_example : run (create 100) calls ≡ some (list_run [] false calls)
queue_refines_example = queue_refines 100 calls

front_between_example :
    (q' : PQueue ℕ) × (push_around_front 7 (create 100) ≡ some (some 7, q'))
    × (push true 8 q' ≡ none)
front_between_example = front_between (create 100) 7 8 (create-Shows ℕ 100)

-- Of a queue with one place `try_push` waits from the second value on.
is_full-reserve : is_full (reserve 0 (record (create {V = ℕ} 5) { size = 1 })) ≡ true
unfolding is_full reserve create
is_full-reserve = refl
