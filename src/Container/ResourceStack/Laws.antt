-- ===== src/Container/ResourceStack/Laws.antt =====
-- container/resource_stack.h: `push`, `pop` and `force_pop` on the list of the resources and the number of the
-- free holders, and what `destroy` gives up.
use selib.Prelude.{
  ℕ, ◌≡◌, refl, ap, ◌∙◌, true, false, none, some, List, [], ◌∷◌, set, length, arith, get_or-set,
  eq→==, length-set, length-append,
}
use selib.Container.ResourceStack.{Lifo, ResourceStack, push, pop, add_holder}
use selib.Container.ResourceStack.Holders.{
  IsDistinct, IsApart, Holding, Holding-set, Holding-append, IsDistinct-mono, IsDistinct-IsNew,
  IsApart-head, IsApart-cons,
}

module _ {S : Type 0} (lifo : Lifo S) where
  -- The holders stand on one of the two stacks each, and those of the one hold the resources.
  unfoldable pub Shows : ResourceStack S → List ℕ → List ℕ → List ℕ → Type 0
  Shows r hs es xs =
      (lifo.nodes r.aviable ≡ hs)
      × (lifo.nodes r.empty ≡ es)
      × IsDistinct (length r.held) hs
      × IsDistinct (length r.held) es
      × IsApart hs es
      × Holding r.held hs xs

  pub push-Shows :
      (x : ℕ) (r : ResourceStack S) (hs : List ℕ) (e : ℕ) (es xs : List ℕ)
      → Shows r hs (e ∷ es) xs
      → (r' : ResourceStack S) × (push lifo (some x) r ≡ (true, r')) × Shows r' (e ∷ hs) es (x ∷ xs)
  unfolding Shows push IsDistinct IsApart Holding
  push-Shows x r hs e es xs (a, b, da, (le, ne, de), p, k) =
      let (took, left) = lifo.pop_cons r.empty e es b in
      let (new, apart) = IsApart-head hs e es p in
      let long = length-set r.held e (some x) in
      (
        record r {
          empty = (lifo.pop r.empty).1;
          held = set r.held e (some x);
          aviable = lifo.push e r.aviable;
        },
        ground (arith, took),
        (
          lifo.nodes-push e r.aviable ∙ ap (◌∷◌ e) a,
          left,
          (omega (arith, long), new, IsDistinct-mono (length r.held) _ hs (omega (arith, long)) da),
          IsDistinct-mono (length r.held) _ es (omega (arith, long)) de,
          (ne, apart),
          (
            ground (arith, get_or-set r.held e e (some x) none le, eq→== e e refl),
            Holding-set r.held e (some x) hs xs le new k,
          ),
        ),
      )

  pub pop-Shows :
      (r : ResourceStack S) (a : ℕ) (hs es : List ℕ) (x : ℕ) (xs : List ℕ)
      → Shows r (a ∷ hs) es (x ∷ xs)
      → (r' : ResourceStack S) × (pop lifo r ≡ (some x, r')) × Shows r' hs (a ∷ es) xs
  unfolding Shows pop IsDistinct IsApart Holding
  pop-Shows r a hs es x xs (n, b, (la, na, da), de, (apart, p), (k, ks)) =
      let (took, left) = lifo.pop_cons r.aviable a hs n in
      let long = length-set r.held a none in
      (
        record r {
          aviable = (lifo.pop r.aviable).1;
          held = set r.held a none;
          empty = lifo.push a r.empty;
        },
        ground (arith, took, k),
        (
          left,
          lifo.nodes-push a r.empty ∙ ap (◌∷◌ a) b,
          IsDistinct-mono (length r.held) _ hs (omega (arith, long)) da,
          (
            omega (arith, long),
            apart,
            IsDistinct-mono (length r.held) _ es (omega (arith, long)) de,
          ),
          IsApart-cons hs a es na p,
          Holding-set r.held a none hs xs la na ks,
        ),
      )

  pub pop-Shows_empty :
      (r : ResourceStack S) (es : List ℕ)
      → Shows r [] es []
      → (r' : ResourceStack S) × (pop lifo r ≡ (none, r')) × Shows r' [] es []
  unfolding Shows pop
  pop-Shows_empty r es (n, b, da, de, p, k) =
      let (took, left) = lifo.pop_nil r.aviable n in
      (record r { aviable = (lifo.pop r.aviable).1 }, ground (arith, took), (left, b, da, de, p, k))

  pub push-Shows_full :
      (x : ℕ) (r : ResourceStack S) (hs xs : List ℕ)
      → Shows r hs [] xs
      → (r' : ResourceStack S) × (push lifo (some x) r ≡ (false, r')) × Shows r' hs [] xs
  unfolding Shows push
  push-Shows_full x r hs xs (n, b, da, de, p, k) =
      let (took, left) = lifo.pop_nil r.empty b in
      (record r { empty = (lifo.pop r.empty).1 }, ground (arith, took), (n, left, da, de, p, k))

  pub add_holder-Shows :
      (r : ResourceStack S) (hs es xs : List ℕ)
      → Shows r hs es xs
      → Shows (add_holder lifo r) hs (length r.held ∷ es) xs
  unfolding Shows add_holder IsDistinct
  add_holder-Shows r hs es xs (n, b, da, de, p, k) =
      let long = length-append r.held (none ∷ []) in
      (
        n,
        lifo.nodes-push (length r.held) r.empty ∙ ap (◌∷◌ (length r.held)) b,
        IsDistinct-mono (length r.held) _ hs (omega (arith, long)) da,
        (
          omega (arith, long),
          IsDistinct-IsNew (length r.held) es de,
          IsDistinct-mono (length r.held) _ es (omega (arith, long)) de,
        ),
        IsApart-cons hs (length r.held) es (IsDistinct-IsNew (length r.held) hs da) p,
        Holding-append r.held none hs xs da k,
      )
