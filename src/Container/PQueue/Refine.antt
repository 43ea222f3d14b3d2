-- ===== src/Container/PQueue/Refine.antt =====
-- container/pqueue.h: calls of `push`, `front`, `flush` and `all_poped` one after the other, against a list of
-- the values and the flag of `flush`.
use selib.Prelude.{
  ℕ, ◌%◌, ◌^◌, ◌≡◌, refl, ◌∙◌, Bool, true, false, ◌&&◌, Option, none, some, List, [], ◌∷◌, ◌++◌,
  ◌==◌, if◌then◌else◌, ◌>>=◌, length, arith, length-append,
}
use selib.Container.PQueue.{PQueue, create, push, front, flush, all_poped}
use selib.Container.PQueue.Laws.{
  Shows, create-Shows, push-Shows, front-Shows_two, front-Shows_one, front-Shows_empty,
}

-- A call, with whether its allocation succeeds.
pub data Op {ℓ} (V : Type ℓ) : Type ℓ where
  put : Bool → V → Op V
  get : Op V
  finish : Bool → V → Op V
  ask : Op V

-- What a call returns.
pub data Reply {ℓ} (V : Type ℓ) : Type ℓ where
  stored : Bool → Reply V
  got : Option V → Reply V
  finished : Reply V
  answer : Bool → Reply V

module _ {ℓ} {V : Type ℓ} where
  pub step : PQueue V → Op V → Option (Reply V × PQueue V)
  step q (put alloc x) = do r ← push alloc x q; some (stored r.0, r.1)
  step q get = do r ← front q; some (got r.0, r.1)
  step q (finish alloc x) = do q' ← flush alloc x q; some (finished, q')
  step q ask = some (answer (all_poped q), q)

  pub run : PQueue V → List (Op V) → Option (List (Reply V))
  unfolding step
  run q [] = some []
  run q (o ∷ os) = do r ← step q o; rs ← run r.1 os; some (r.0 ∷ rs)

  -- The same on the values and the flag. The last value stays.
  unfoldable pub list_get : List V → Option V × List V
  list_get [] = (none, [])
  list_get (v ∷ []) = (none, v ∷ [])
  list_get (v ∷ w ∷ vs) = (some v, w ∷ vs)

  unfoldable pub list_put : Bool → V → List V → List V
  list_put alloc x vs = if alloc then vs ++ x ∷ [] else vs

  unfoldable pub list_step : List V → Bool → Op V → Reply V × List V × Bool
  unfolding list_get list_put
  list_step vs f (put alloc x) = (stored alloc, list_put alloc x vs, f)
  list_step vs f get = (got (list_get vs).0, (list_get vs).1, f)
  list_step vs f (finish alloc x) = (finished, list_put alloc x vs, true)
  list_step vs f ask = (answer (f && (length vs % 2 ^ 32 == 1)), vs, f)

  unfoldable pub list_run : List V → Bool → List (Op V) → List (Reply V)
  unfolding list_step
  list_run vs f [] = []
  list_run vs f (o ∷ os) = let r = list_step vs f o in r.0 ∷ list_run r.1 r.2 os

  -- The queue holds the values, in order, its size is their number, and the flag is its flag.
  pub IsQueue : PQueue V → List V → Bool → Type ℓ
  IsQueue q vs f = Shows q vs × (q.size ≡ length vs % 2 ^ 32) × (q.flushed ≡ f)

  put_lem :
      (alloc : Bool) (x : V) (q : PQueue V) (vs : List V) (f : Bool)
      → IsQueue q vs f
      → (q' : PQueue V) × (push alloc x q ≡ some (alloc, q')) × IsQueue q' (list_put alloc x vs) f
  unfolding IsQueue list_put
  put_lem true x q vs f (s, n, e) =
      let (q', p, s', n', f') = push-Shows x q vs s in
      (q', p, (s', omega (arith, n, n', length-append vs (x ∷ [])), f' ∙ e))
  put_lem false x q vs f h = (q, unfold push in refl, h)

  get_lem :
      (q : PQueue V) (vs : List V) (f : Bool)
      → IsQueue q vs f
      → (q' : PQueue V) × (front q ≡ some ((list_get vs).0, q')) × IsQueue q' (list_get vs).1 f
  unfolding IsQueue list_get
  get_lem q [] f h = (q, front-Shows_empty q h.0, h)
  get_lem q (v ∷ []) f h = (q, front-Shows_one q v h.0, h)
  get_lem q (v ∷ w ∷ vs) f (s, n, e) =
      let (q', p, s', n', f') = front-Shows_two q v w vs s in
      (q', p, (s', omega (arith, n, n'), f' ∙ e))

  finish_lem :
      (alloc : Bool) (x : V) (q : PQueue V) (vs : List V) (f : Bool)
      → IsQueue q vs f
      → (q' : PQueue V) × (flush alloc x q ≡ some q') × IsQueue q' (list_put alloc x vs) true
  unfolding IsQueue Shows
  finish_lem alloc x q vs f h =
      let (q', p, (s, n, e)) = put_lem alloc x q vs f h in
      (record q' { flushed = true }, unfold flush in rw p, (s, n, refl))

  ask_lem :
      (q : PQueue V) (vs : List V) (f : Bool)
      → IsQueue q vs f
      → all_poped q ≡ f && (length vs % 2 ^ 32 == 1)
  unfolding IsQueue all_poped
  ask_lem q vs f (s, n, e) = rw (n, e)

  run_lem :
      (os : List (Op V)) (q : PQueue V) (vs : List V) (f : Bool)
      → IsQueue q vs f
      → run q os ≡ some (list_run vs f os)
  unfolding run step list_run list_step
  run_lem [] q vs f h = refl
  run_lem (put alloc x ∷ os) q vs f h =
      let (q', p, h') = put_lem alloc x q vs f h in rw (p, run_lem os q' (list_put alloc x vs) f h')
  run_lem (get ∷ os) q vs f h =
      let (q', p, h') = get_lem q vs f h in rw (p, run_lem os q' (list_get vs).1 f h')
  run_lem (finish alloc x ∷ os) q vs f h =
      let (q', p, h') = finish_lem alloc x q vs f h in
      rw (p, run_lem os q' (list_put alloc x vs) true h')
  run_lem (ask ∷ os) q vs f h = rw (ask_lem q vs f h, run_lem os q vs f h)

-- Any sequence of calls of `push`, `front`, `flush` and `all_poped` on a new queue runs without a fault and
-- returns what it returns on the list of the values: `push` puts a value at the end where it can be
-- allocated, `front` takes the first of two values at least, and `all_poped` is true after `flush`
-- where one value is left, modulo 2 ^ 32.
pub queue_refines {ℓ} :
    {V : Type ℓ} (limit : ℕ) (os : List (Op V))
    → run (create limit) os ≡ some (list_run [] false os)
unfolding IsQueue create
queue_refines {V = V} limit os =
    run_lem os (create limit) [] false (create-Shows V limit, refl, refl)
