-- ===== src/Framework/PoolMgr/Safety.antt =====
-- framework/shining_pool.h: no element is lost or in two places, and no call fails, in any interleaving.
use selib.Prelude.{
  count, ℕ, zero, suc, ◌<◌, ◌≡◌, refl, ap, Bool, true, false, some, List, [], ◌∷◌, ◌++◌, arith,
  length, replicate,
}
use selib.Container.ResourceStack
use selib.Container.ResourceStack.{Lifo, ResourceStack, create, fresh}
use selib.Framework.PoolMgr.{PoolMgr, new_pool, init, start, Worker, begin_thread, give, push}
use selib.Framework.PoolMgr.Pools.{IsPool}
use selib.Framework.PoolMgr.System.{System, Reach, held}
use selib.Container.ResourceStack.Refine.{IsStack, create_lem, fresh-IsStack}
use selib.Framework.PoolMgr.Calls.{Inv, push_lem, with_consumer}
use selib.Framework.PoolMgr.Workers.{Reach-Inv, give_lem}

count-replicate : (n : ℕ) → held (replicate n begin_thread) ≡ []
count-replicate zero = refl
count-replicate (suc n) = count-replicate n

module _ {S : Type 0} (lifo : Lifo S) (alloc : ℕ → Bool) (threads capacity : ℕ) where
  -- After `init`, with all allocations done, and `start`.
  unfoldable pub started : System S
  started = record {
    pm = (start (init lifo true true true alloc threads capacity new_pool).1).1;
    forcing = false;
    mine = [];
    workers = replicate threads begin_thread;
    made = 0;
  }

  started-Inv : ((i : ℕ) → i < capacity → alloc i ≡ true) → Inv lifo capacity started
  unfolding started init start IsPool IsStack
  started-Inv f =
      let (r', p, (hs, es, h, e)) =
        create_lem lifo alloc capacity (fresh lifo) 0 f (fresh-IsStack lifo) in
      let (hs0, es0, h0, e0) = fresh-IsStack lifo in
      record {
        rp = fresh lifo;
        rc = r';
        xs = [];
        ys = [];
        has_producer = refl;
        has_consumer = ap (λ t. some t.1) p;
        producer = (hs0, es0, h0, omega (arith, e0));
        consumer = (hs, es, h, omega (arith, e));
        room = omega arith;
        can_force = λ h. cc;
        shared = record {
          whole = omega (arith, ap length (count-replicate threads));
          each = λ y. ground (arith, ap (count y) (count-replicate threads));
        };
      }

  module _ (f : (i : ℕ) → i < capacity → alloc i ≡ true) {s : System S}
      (r : Reach lifo started s) where
    -- After an `init` whose allocations succeed and `start`, in any interleaving of the calls of the stacks by one
    -- thread in `pop` and `push` and by those in `thread_fun`: the elements so far are at most the pool size, and
    -- each is in one place, with the caller, in one of the two pools or in the hand of a thread; the consumer's
    -- pool has a holder for each of the pool size, the producer's for each element.
    pub pools_valid : Inv lifo capacity s
    pools_valid = Reach-Inv lifo capacity (started-Inv f) r

    -- After an `init` whose allocations succeed and `start`, in any interleaving of one caller and the threads in
    -- `thread_fun`, `push` of an element that `pop` has returned puts it into the consumer's pool.
    pub push_succeeds :
        (a : List ℕ) (x : ℕ) (b : List ℕ)
        → s.mine ≡ a ++ x ∷ b
        → (pm : PoolMgr S) × (push lifo (some x) s.pm ≡ some (true, pm))
    push_succeeds a x b e =
        let (r', g, k) = push_lem lifo capacity s pools_valid a x b e in
        (with_consumer lifo capacity s pools_valid r', g)

    -- After an `init` whose allocations succeed and `start`, in any interleaving of one caller and the threads in
    -- `thread_fun`, a thread that gives its element back finds a free holder for it in the producer's pool.
    pub give_back_succeeds :
        (l : List Worker) (x : ℕ) (t : List Worker)
        → s.workers ≡ l ++ give x ∷ t
        → (rp : ResourceStack S) × (rp' : ResourceStack S) × (s.pm.producer_pool ≡ some rp)
          × (ResourceStack.push lifo (some x) rp ≡ (true, rp'))
    give_back_succeeds l x t e =
        let (rp', k, _) = give_lem lifo capacity s pools_valid l (give x) t e x refl in
        (Inv.rp pools_valid, rp', Inv.has_producer pools_valid, k)
