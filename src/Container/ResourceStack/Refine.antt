-- ===== src/Container/ResourceStack/Refine.antt =====
-- container/resource_stack.h: calls one after the other, against a list of resources and the number of the
-- free holders.
use selib.Prelude.{
  ℕ, zero, suc, ◌+◌, ◌<◌, ◌≡◌, refl, ap, ◌∙◌, Bool, true, false, Option, none, some, List, [], ◌∷◌,
  length, arith,
}
use selib.Container.ResourceStack.{
  Lifo, ResourceStack, fresh, push, pop, add_holder, create, produce, force_pop,
}
use selib.Container.ResourceStack.Holders.{IsDistinct, IsApart, Holding}
use selib.Container.ResourceStack.Laws.{
  Shows, push-Shows, pop-Shows, pop-Shows_empty, push-Shows_full, add_holder-Shows,
}

-- A call; of `force_pop` with what the producer makes and whether a holder can be allocated.
pub data Op : Type 0 where
  put : Option ℕ → Op
  get : Op
  force : Option ℕ → Bool → Op

-- What a call returns.
pub data Reply : Type 0 where
  stored : Bool → Reply
  got : Option ℕ → Reply

-- The same on the resources, the latest first, and the number of the free holders.
unfoldable pub list_step : List ℕ → ℕ → Op → Reply × List ℕ × ℕ
list_step xs free (put none) = (stored false, xs, free)
list_step xs zero (put (some x)) = (stored false, xs, zero)
list_step xs (suc free) (put (some x)) = (stored true, x ∷ xs, free)
list_step [] free get = (got none, [], free)
list_step (x ∷ xs) free get = (got (some x), xs, suc free)
list_step (x ∷ xs) free (force made alloc) = (got (some x), xs, suc free)
list_step [] free (force none alloc) = (got none, [], free)
list_step [] free (force (some x) true) = (got (some x), [], suc free)
list_step [] free (force (some x) false) = (got none, [], free)

unfoldable pub list_run : List ℕ → ℕ → List Op → List Reply
list_run xs free [] = []
list_run xs free (o ∷ os) = let r = list_step xs free o in r.0 ∷ list_run r.1 r.2 os

module _ {S : Type 0} (lifo : Lifo S) where
  pub step : ResourceStack S → Op → Reply × ResourceStack S
  step r (put x) = let q = push lifo x r in (stored q.0, q.1)
  step r get = let q = pop lifo r in (got q.0, q.1)
  step r (force made alloc) = let q = force_pop lifo made alloc r in (got q.0, q.1)

  pub run : ResourceStack S → List Op → List Reply
  run r [] = []
  run r (o ∷ os) = let q = step r o in q.0 ∷ run q.1 os

  -- The stack holds the resources and has some free holders.
  unfoldable pub IsStack : ResourceStack S → List ℕ → ℕ → Type 0
  IsStack r xs free = (hs : List ℕ) × (es : List ℕ) × Shows lifo r hs es xs × (length es ≡ free)

  -- A step and the same on the list.
  Follows : ResourceStack S → List ℕ → ℕ → Op → Type 0
  Follows r xs free o =
      (r' : ResourceStack S) × (step r o ≡ ((list_step xs free o).0, r'))
      × IsStack r' (list_step xs free o).1 (list_step xs free o).2

  put_lem :
      (x : ℕ) (r : ResourceStack S) (xs : List ℕ) (free : ℕ)
      → IsStack r xs free
      → Follows r xs free (put (some x))
  unfolding IsStack Follows step list_step
  put_lem x r xs zero (hs, [], h, e) =
      let (r', p, k) = push-Shows_full lifo x r hs xs h in (r', rw p, (hs, [], k, refl))
  put_lem x r xs zero (hs, (a ∷ es), h, e) = absurd (omega arith)
  put_lem x r xs (suc free) (hs, [], h, e) = absurd (omega arith)
  put_lem x r xs (suc free) (hs, (a ∷ es), h, e) =
      let (r', p, k) = push-Shows lifo x r hs a es xs h in (r', rw p, (a ∷ hs, es, k, omega arith))

  -- There are as many holders with a resource as resources.
  pub unmatched : (r : ResourceStack S) (a : ℕ) (hs es : List ℕ) → Shows lifo r (a ∷ hs) es [] → ⊥
  unfolding Shows Holding
  unmatched r a hs es (n, b, da, de, p, k) = k

  pub unmatched_empty :
      (r : ResourceStack S) (es : List ℕ) (x : ℕ) (xs : List ℕ) → Shows lifo r [] es (x ∷ xs) → ⊥
  unfolding Shows Holding
  unmatched_empty r es x xs (n, b, da, de, p, k) = k

  get_lem :
      (r : ResourceStack S) (xs : List ℕ) (free : ℕ) → IsStack r xs free → Follows r xs free get
  unfolding IsStack Follows step list_step
  get_lem r [] free ([], es, h, e) =
      let (r', p, k) = pop-Shows_empty lifo r es h in (r', rw p, ([], es, k, e))
  get_lem r [] free ((a ∷ hs), es, h, e) = absurd (unmatched r a hs es h)
  get_lem r (x ∷ xs) free ([], es, h, e) = absurd (unmatched_empty r es x xs h)
  get_lem r (x ∷ xs) free ((a ∷ hs), es, h, e) =
      let (r', p, k) = pop-Shows lifo r a hs es x xs h in (r', rw p, (hs, a ∷ es, k, ap suc e))

  pub force_pop_empty :
      (made : Option ℕ) (alloc : Bool) (r r' : ResourceStack S)
      → pop lifo r ≡ (none, r')
      → force_pop lifo made alloc r ≡ produce lifo made alloc r'
  unfolding force_pop
  force_pop_empty made alloc r r' p = ground (arith, p)

  pub force_pop_full :
      (made : Option ℕ) (alloc : Bool) (r r' : ResourceStack S) (x : ℕ)
      → pop lifo r ≡ (some x, r')
      → force_pop lifo made alloc r ≡ (some x, r')
  unfolding force_pop
  force_pop_full made alloc r r' x p = ground (arith, p)

  force_lem :
      (made : Option ℕ) (alloc : Bool) (r : ResourceStack S) (xs : List ℕ) (free : ℕ)
      → IsStack r xs free
      → Follows r xs free (force made alloc)
  unfolding IsStack Follows step list_step produce
  force_lem made alloc r [] free ((a ∷ hs), es, h, e) = absurd (unmatched r a hs es h)
  force_lem made alloc r (x ∷ xs) free ([], es, h, e) = absurd (unmatched_empty r es x xs h)
  force_lem made alloc r (x ∷ xs) free ((a ∷ hs), es, h, e) =
      let (r', p, k) = pop-Shows lifo r a hs es x xs h in
      (r', rw (force_pop_full made alloc r r' x p), (hs, a ∷ es, k, ap suc e))
  force_lem none alloc r [] free ([], es, h, e) =
      let (r', p, k) = pop-Shows_empty lifo r es h in
      (r', rw (force_pop_empty none alloc r r' p), ([], es, k, e))
  force_lem (some x) true r [] free ([], es, h, e) =
      let (r', p, k) = pop-Shows_empty lifo r es h in
      (
        add_holder lifo r',
        rw (force_pop_empty (some x) true r r' p),
        ([], length r'.held ∷ es, add_holder-Shows lifo r' [] es [] k, ap suc e),
      )
  force_lem (some x) false r [] free ([], es, h, e) =
      let (r', p, k) = pop-Shows_empty lifo r es h in
      (r', rw (force_pop_empty (some x) false r r' p), ([], es, k, e))

  follows :
      (o : Op) (r : ResourceStack S) (xs : List ℕ) (free : ℕ)
      → IsStack r xs free
      → Follows r xs free o
  follows (put none) r xs free h = unfold Follows step list_step push in (r, refl, h)
  follows (put (some x)) r xs free h = put_lem x r xs free h
  follows get r xs free h = get_lem r xs free h
  follows (force made alloc) r xs free h = force_lem made alloc r xs free h

  run_lem :
      (os : List Op) (r : ResourceStack S) (xs : List ℕ) (free : ℕ)
      → IsStack r xs free
      → run r os ≡ list_run xs free os
  unfolding run list_run Follows
  run_lem [] r xs free h = refl
  run_lem (o ∷ os) r xs free h =
      let (r', p, k) = follows o r xs free h in
      rw (p, run_lem os r' (list_step xs free o).1 (list_step xs free o).2 k)

  -- `create` where all of its allocations succeed.
  pub create_lem :
      (alloc : ℕ → Bool) (n : ℕ) (r : ResourceStack S) (free : ℕ)
      → ((i : ℕ) → i < n → alloc i ≡ true)
      → IsStack r [] free
      → (r' : ResourceStack S) × (create lifo alloc n r ≡ (true, r')) × IsStack r' [] (n + free)
  unfolding create IsStack
  create_lem alloc zero r free f (hs, es, h, e) = (r, refl, (hs, es, h, omega arith))
  create_lem alloc (suc n) r free f (hs, es, h, e) =
      let more = add_holder-Shows lifo r hs es [] h in
      let (r', p, (hs', es', h', e')) =
        create_lem alloc n (add_holder lifo r) (suc free) (λ i l. f i (omega arith))
          (hs, length r.held ∷ es, more, ap suc e) in
      (r', rw (f n (omega arith), p), (hs', es', h', omega arith))

  pub fresh-IsStack : IsStack (fresh lifo) [] 0
  unfolding IsStack Shows fresh IsDistinct IsApart Holding
  fresh-IsStack = ([], [], (lifo.nodes-new, lifo.nodes-new, tt, tt, tt, tt), refl)

  -- After a `create` of some holders that can all be allocated, any sequence of `push`, `pop` and `force_pop`
  -- returns what it returns on a list of resources and a number of free holders: `push` puts a resource in
  -- front where there is a free holder, `pop` takes the first, and `force_pop` of no resource gives what
  -- the producer makes, with one free holder more, where a holder can be allocated.
  pub stack_refines :
      (alloc : ℕ → Bool) (n : ℕ) (os : List Op)
      → ((i : ℕ) → i < n → alloc i ≡ true)
      → run (create lifo alloc n (fresh lifo)).1 os ≡ list_run [] n os
  stack_refines alloc n os f =
      let (r', p, h) = create_lem alloc n (fresh lifo) 0 f fresh-IsStack in
      ap (λ q. run q.1 os) p
      ∙ run_lem os r' [] (n + 0) h
      ∙ ap (λ (k : ℕ). list_run [] k os) (omega arith)
