-- ===== src/Framework/PoolMgr/Pools.antt =====
-- framework/shining_pool.h: a pool by the elements in it and the number of its holders.
use selib.Prelude.{
  ℕ, ◌+◌, ◌<◌, ◌≡◌, ◌∙◌, Bool, true, Option, none, some, List, [], ◌∷◌, length, arith,
}
use selib.Container.ResourceStack.{Lifo, ResourceStack, push, pop, force_pop, produce, add_holder}
use selib.Container.ResourceStack.Laws.{
  Shows, push-Shows, pop-Shows, pop-Shows_empty, add_holder-Shows,
}
use selib.Container.ResourceStack.Refine.{
  unmatched, unmatched_empty, force_pop_empty, force_pop_full,
}

module _ {S : Type 0} (lifo : Lifo S) where
  -- A stack with some elements, the latest first, and as many holders as these and the free ones.
  unfoldable pub IsPool : ResourceStack S → List ℕ → ℕ → Type 0
  IsPool r xs n =
      (hs : List ℕ) × (es : List ℕ) × Shows lifo r hs es xs × (length xs + length es ≡ n)

  pub push-IsPool :
      (x : ℕ) (r : ResourceStack S) (xs : List ℕ) (n : ℕ)
      → IsPool r xs n
      → length xs < n
      → (r' : ResourceStack S) × (push lifo (some x) r ≡ (true, r')) × IsPool r' (x ∷ xs) n
  unfolding IsPool
  push-IsPool x r xs n (hs, [], h, e) l = absurd (omega (arith, e, l))
  push-IsPool x r xs n (hs, (a ∷ es), h, e) l =
      let (r', p, k) = push-Shows lifo x r hs a es xs h in
      (r', p, (a ∷ hs, es, k, omega (arith, e)))

  pub pop-IsPool :
      (r : ResourceStack S) (x : ℕ) (xs : List ℕ) (n : ℕ)
      → IsPool r (x ∷ xs) n
      → (r' : ResourceStack S) × (pop lifo r ≡ (some x, r')) × IsPool r' xs n
  unfolding IsPool
  pop-IsPool r x xs n ([], es, h, e) = absurd (unmatched_empty lifo r es x xs h)
  pop-IsPool r x xs n ((a ∷ hs), es, h, e) =
      let (r', p, k) = pop-Shows lifo r a hs es x xs h in (r', p, (hs, a ∷ es, k, omega (arith, e)))

  pub pop-IsPool_empty :
      (r : ResourceStack S) (n : ℕ)
      → IsPool r [] n
      → (r' : ResourceStack S) × (pop lifo r ≡ (none, r')) × IsPool r' [] n
  unfolding IsPool
  pop-IsPool_empty r n ((a ∷ hs), es, h, e) = absurd (unmatched lifo r a hs es h)
  pop-IsPool_empty r n ([], es, h, e) =
      let (r', p, k) = pop-Shows_empty lifo r es h in (r', p, ([], es, k, e))

  pub force-IsPool :
      (made : Option ℕ) (alloc : Bool) (r : ResourceStack S) (x : ℕ) (xs : List ℕ) (n : ℕ)
      → IsPool r (x ∷ xs) n
      → (r' : ResourceStack S) × (force_pop lifo made alloc r ≡ (some x, r')) × IsPool r' xs n
  force-IsPool made alloc r x xs n h =
      let (r', p, k) = pop-IsPool r x xs n h in (r', force_pop_full lifo made alloc r r' x p, k)

  -- An empty stack gets a holder with the element that it makes.
  pub force-IsPool_new :
      (x : ℕ) (r : ResourceStack S) (n : ℕ)
      → IsPool r [] n
      → (r' : ResourceStack S) × (force_pop lifo (some x) true r ≡ (some x, r'))
        × IsPool r' [] (n + 1)
  unfolding IsPool produce
  force-IsPool_new x r n h =
      let (r1, p, (hs, es, k, e)) = pop-IsPool_empty r n h in
      (
        add_holder lifo r1,
        force_pop_empty lifo (some x) true r r1 p,
        (hs, length r1.held ∷ es, add_holder-Shows lifo r1 hs es [] k, omega (arith, e)),
      )

  pub force-IsPool_failed :
      (made : Option ℕ) (alloc : Bool) (r : ResourceStack S) (n : ℕ)
      → ((r' : ResourceStack S) → produce lifo made alloc r' ≡ (none, r'))
      → IsPool r [] n
      → (r' : ResourceStack S) × (force_pop lifo made alloc r ≡ (none, r')) × IsPool r' [] n
  force-IsPool_failed made alloc r n f h =
      let (r1, p, k) = pop-IsPool_empty r n h in
      (r1, force_pop_empty lifo made alloc r r1 p ∙ f r1, k)
