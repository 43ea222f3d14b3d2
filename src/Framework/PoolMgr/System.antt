-- ===== src/Framework/PoolMgr/System.antt =====
-- framework/shining_pool.h: a thread that calls `pop` and `push`, and any number of threads in `thread_fun`, in
-- any interleaving of their calls of the two stacks; and how the elements are shared out.
use selib.Prelude.{
  count, count-append, ℕ, ◌+◌, ◌≡◌, Bool, true, false, Option, none, some, List, [], ◌∷◌, ◌++◌,
  ◌==◌, if◌then◌else◌, ltb, arith, length, length-append,
}
use selib.Container.ResourceStack.{Lifo}
use selib.Framework.PoolMgr.{PoolMgr, Worker, handle, give, push, pop_first, pop_forced, work, stop}

-- `mine` has the elements that `pop` has returned and that are not pushed, and `forcing` says whether `pop` is
-- before its `force_pop`; `made` is the number of the elements so far, which have the numbers below it.
pub record System (S : Type 0) : Type 0 where
  pub pm : PoolMgr S
  pub forcing : Bool
  pub mine : List ℕ
  pub workers : List Worker
  pub made : ℕ

abbrev pub add : Option ℕ → List ℕ → List ℕ
add none l = l
add (some x) l = x ∷ l

-- The number of the elements, when `force_pop` has returned the pointer.
abbrev pub made_by : Option ℕ → ℕ → ℕ
made_by none n = n
made_by (some x) n = if x == n then n + 1 else n

-- What `new` gives, where it succeeds or not.
abbrev pub new_element : Bool → ℕ → Option ℕ
new_element true n = some n
new_element false n = none

module _ {S : Type 0} (lifo : Lifo S) where
  pub data Step : System S → System S → Type 0 where
    pop_call :
        (s : System S) (p : Option ℕ) (more : Bool) (pm : PoolMgr S)
        → s.forcing ≡ false
        → pop_first lifo s.pm ≡ some (p, more, pm)
        → Step s (record s { pm = pm; forcing = more; mine = add p s.mine })
    force_call :
        (s : System S) (new_ok alloc : Bool) (p : Option ℕ) (pm : PoolMgr S)
        → s.forcing ≡ true
        → pop_forced lifo (new_element new_ok s.made) alloc s.pm ≡ some (p, pm)
        → Step s
            (record s { pm = pm; forcing = false; mine = add p s.mine; made = made_by p s.made })
    push_call :
        (s : System S) (a : List ℕ) (x : ℕ) (b : List ℕ) (ok : Bool) (pm : PoolMgr S)
        → s.forcing ≡ false
        → s.mine ≡ a ++ x ∷ b
        → push lifo (some x) s.pm ≡ some (ok, pm)
        → Step s (record s { pm = pm; mine = if ok then a ++ b else s.mine })
    stop_call : (s : System S) → s.forcing ≡ false → Step s (record s { pm = (stop s.pm).1 })
    work_call :
        (s : System S) (data_ok : Bool) (l : List Worker) (w w' : Worker) (r : List Worker)
        (pm : PoolMgr S)
        → s.workers ≡ l ++ w ∷ r
        → work lifo data_ok s.pm w ≡ some (pm, w')
        → Step s (record s { pm = pm; workers = l ++ w' ∷ r })

  pub data Reach (s : System S) : System S → Type 0 where
    here : Reach s s
    later : {t u : System S} → Reach s t → Step t u → Reach s u

-- The elements that the threads have in hand.
abbrev pub held_by : Worker → List ℕ
held_by (handle x) = x ∷ []
held_by (give x) = x ∷ []
held_by _ = []

abbrev pub held : List Worker → List ℕ
held [] = []
held (w ∷ ws) = held_by w ++ held ws

pub count-held :
    (y : ℕ) (l : List Worker) (w : Worker) (r : List Worker)
    → count y (held (l ++ w ∷ r)) ≡ count y (held l) + count y (held_by w) + count y (held r)
count-held y [] w r = omega (arith, count-append y (held_by w) (held r))
count-held y (v ∷ l) w r = omega (
  arith,
  count-append y (held_by v) (held (l ++ w ∷ r)),
  count-append y (held_by v) (held l),
  count-held y l w r,
)

pub length-held :
    (l : List Worker) (w : Worker) (r : List Worker)
    → length (held (l ++ w ∷ r)) ≡ length (held l) + length (held_by w) + length (held r)
length-held [] w r = omega (arith, length-append (held_by w) (held r))
length-held (v ∷ l) w r = omega (
  arith,
  length-append (held_by v) (held (l ++ w ∷ r)),
  length-append (held_by v) (held l),
  length-held l w r,
)

-- The numbers below `n`, each once, in some order and in four lists.
pub record SharedOut (n : ℕ) (mine ys hs xs : List ℕ) : Type 0 where
  pub whole : length mine + length ys + length hs + length xs ≡ n
  pub each :
      (y : ℕ) → count y mine + count y ys + count y hs + count y xs ≡ (if ltb y n then 1 else 0)
