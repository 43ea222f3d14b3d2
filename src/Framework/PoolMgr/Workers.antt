-- ===== src/Framework/PoolMgr/Workers.antt =====
-- framework/shining_pool.h: the threads in `thread_fun`, and all steps of the system.
use selib.Prelude.{
  count, ℕ, ◌+◌, ◌≡◌, refl, sym, ap, ◌∙◌, inl, inr, Bool-cases, Bool, true, false, Option, none,
  some, List, [], ◌∷◌, ◌++◌, if◌then◌else◌, arith, length,
}
use mathlib.Core.Path.{subst}
use mathlib.Core.Option.{some-injective}
use selib.Container.ResourceStack
use selib.Container.ResourceStack.{Lifo, ResourceStack, create, fresh}
use selib.Framework.PoolMgr.{
  PoolMgr, Worker, begin_thread, loop_test, take, handle, give, ended, work, stop,
}
use selib.Framework.PoolMgr.Pools.{IsPool, push-IsPool, pop-IsPool, pop-IsPool_empty}
use selib.Framework.PoolMgr.System.{
  System, add, Step, pop_call, force_call, push_call, stop_call, work_call, Reach, here, later,
  held_by, held, count-held, length-held,
}
use selib.Framework.PoolMgr.Calls.{Inv, list_cases, push_Inv, pop_Inv}
use selib.Framework.PoolMgr.Forced.{force_Inv}

module _ {S : Type 0} (lifo : Lifo S) (capacity : ℕ) where
  module _ (s : System S) (inv : Inv lifo capacity s) (l : List Worker) (w : Worker)
      (r : List Worker) (at : s.workers ≡ l ++ w ∷ r) where
    abbrev pub Worked : PoolMgr S × Worker → Type 0
    Worked t = Inv lifo capacity (record s { pm = t.0; workers = l ++ t.1 ∷ r })

    -- What is taken from a pool comes into the hand, and the other way round.
    hand_over :
        (t : PoolMgr S × Worker) (rp' rc' : ResourceStack S) (xs' ys' : List ℕ)
        → t.0.producer_pool ≡ some rp'
        → t.0.consumer_pool ≡ some rc'
        → t.0.p_size ≡ s.pm.p_size
        → IsPool lifo rp' xs' s.made
        → IsPool lifo rc' ys' capacity
        → length ys' + length (held_by t.1) + length xs'
          ≡ length inv.ys + length (held_by w) + length inv.xs
        → ((y : ℕ)
            → count y ys' + count y (held_by t.1) + count y xs'
              ≡ count y inv.ys + count y (held_by w) + count y inv.xs)
        → Worked t
    hand_over t rp' rc' xs' ys' a b c p q e f = record {
      rp = rp';
      rc = rc';
      xs = xs';
      ys = ys';
      has_producer = a;
      has_consumer = b;
      producer = p;
      consumer = q;
      room = omega (arith, inv.room, c);
      can_force = λ h. omega (arith, inv.can_force h, c);
      shared = record {
        whole = omega (
          arith,
          inv.shared.whole,
          ap (λ z. length (held z)) at,
          length-held l w r,
          length-held l t.1 r,
          e,
        );
        each = λ y. omega (
          arith,
          inv.shared.each y,
          ap (λ z. count y (held z)) at,
          count-held y l w r,
          count-held y l t.1 r,
          f y,
        );
      };
    }

    -- The thread keeps what it has in hand.
    same_hand : (w' : Worker) → held_by w' ≡ held_by w → Worked (s.pm, w')
    same_hand w' e =
        hand_over (s.pm, w') inv.rp inv.rc inv.xs inv.ys inv.has_producer inv.has_consumer refl
          inv.producer inv.consumer (omega (arith, ap length e))
          (λ y. omega (arith, ap (count y) e))

    -- There is a free holder for an element in hand.
    pub give_lem :
        (x : ℕ)
        → held_by w ≡ x ∷ []
        → (rp' : ResourceStack S) × (ResourceStack.push lifo (some x) inv.rp ≡ (true, rp'))
          × IsPool lifo rp' (x ∷ inv.xs) s.made
    give_lem x e = push-IsPool lifo x inv.rp inv.xs s.made inv.producer (
        omega
          (arith, inv.shared.whole, ap (λ z. length (held z)) at, length-held l w r, ap length e))

    taken :
        w ≡ take
        → (rc' : ResourceStack S) (p : Option ℕ) (ys' : List ℕ)
        → ResourceStack.pop lifo inv.rc ≡ (p, rc')
        → IsPool lifo rc' ys' capacity
        → inv.ys ≡ add p ys'
        → (data_ok : Bool)
        → (t : PoolMgr S × Worker) × (work lifo data_ok s.pm take ≡ some t) × Worked t
    unfolding work
    taken e rc' none ys' g k f data_ok = (
      (record s.pm { consumer_pool = some rc' }, loop_test),
      rw (inv.has_consumer, g) refl,
      hand_over (record s.pm { consumer_pool = some rc' }, loop_test) inv.rp rc' inv.xs ys'
          inv.has_producer refl refl inv.producer k
          (omega (arith, ap (λ v. length (held_by v)) e, ap length f))
          (λ y. omega (arith, ap (λ v. count y (held_by v)) e, ap (count y) f)),
    )
    taken e rc' (some x) ys' g k f data_ok = (
      (record s.pm { consumer_pool = some rc' }, handle x),
      rw (inv.has_consumer, g) refl,
      hand_over (record s.pm { consumer_pool = some rc' }, handle x) inv.rp rc' inv.xs ys'
          inv.has_producer refl refl inv.producer k
          (omega (arith, ap (λ v. length (held_by v)) e, ap length f))
          (λ y. omega (arith, ap (λ v. count y (held_by v)) e, ap (count y) f)),
    )

    gave :
        (x : ℕ)
        → held_by w ≡ x ∷ []
        → (rp' : ResourceStack S) → ResourceStack.push lifo (some x) inv.rp ≡ (true, rp')
        → IsPool lifo rp' (x ∷ inv.xs) s.made
        → (data_ok : Bool)
        → (t : PoolMgr S × Worker) × (work lifo data_ok s.pm (give x) ≡ some t) × Worked t
    unfolding work
    gave x hand rp' g k data_ok = (
      (record s.pm { producer_pool = some rp' }, loop_test),
      rw (inv.has_producer, g) refl,
      hand_over (record s.pm { producer_pool = some rp' }, loop_test) rp' inv.rc (x ∷ inv.xs) inv.ys
          refl inv.has_consumer refl k inv.consumer (omega (arith, ap length hand))
          (λ y. omega (arith, ap (count y) hand)),
    )

    -- The next call of the thread makes no access through a null pointer.
    pub worked :
        (v : Worker)
        → w ≡ v
        → (data_ok : Bool)
        → (t : PoolMgr S × Worker) × (work lifo data_ok s.pm v ≡ some t) × Worked t
    unfolding work
    worked begin_thread e true = ((s.pm, loop_test), refl, same_hand loop_test (ap held_by (sym e)))
    worked begin_thread e false = ((s.pm, ended), refl, same_hand ended (ap held_by (sym e)))
    worked loop_test e data_ok = elim (Bool-cases s.pm.alive) [
      | inl f ↦ (
        (s.pm, take),
        ap (λ b. some (s.pm, if b then take else ended)) f,
        same_hand take (ap held_by (sym e)),
      )
      | inr f ↦ (
        (s.pm, ended),
        ap (λ b. some (s.pm, if b then take else ended)) f,
        same_hand ended (ap held_by (sym e)),
      )
    ]
    worked take e data_ok = elim (list_cases inv.ys) [
      | inl f ↦
          let (rc', g, k) =
            pop-IsPool_empty lifo inv.rc capacity
              (subst (λ z. IsPool lifo inv.rc z capacity) f inv.consumer) in
          taken e rc' none [] g k f data_ok
      | inr (x, ys', f) ↦
          let (rc', g, k) =
            pop-IsPool lifo inv.rc x ys' capacity
              (subst (λ z. IsPool lifo inv.rc z capacity) f inv.consumer) in
          taken e rc' (some x) ys' g k f data_ok
    ]
    worked (handle x) e data_ok = ((s.pm, give x), refl, same_hand (give x) (ap held_by (sym e)))
    worked (give x) e data_ok =
        let (rp', g, k) = give_lem x (ap held_by e) in gave x (ap held_by e) rp' g k data_ok
    worked ended e data_ok = ((s.pm, ended), refl, same_hand ended (ap held_by (sym e)))

    work_Inv :
        (data_ok : Bool) (w' : Worker) (pm : PoolMgr S)
        → work lifo data_ok s.pm w ≡ some (pm, w')
        → Worked (pm, w')
    work_Inv data_ok w' pm f =
        let (t, g, i) = worked w refl data_ok in
        subst Worked (some-injective t (pm, w') (sym g ∙ f)) i

  Step-Inv : {s t : System S} → Step lifo s t → Inv lifo capacity s → Inv lifo capacity t
  unfolding stop
  Step-Inv (pop_call s p more pm h f) inv = pop_Inv lifo capacity s inv p more pm f
  Step-Inv (force_call s new_ok alloc p pm h f) inv =
      force_Inv lifo capacity s inv new_ok alloc p pm h f
  Step-Inv (push_call s a x b ok pm h e f) inv = push_Inv lifo capacity s inv a x b ok pm e f
  Step-Inv (stop_call s h) inv = record {
    rp = inv.rp;
    rc = inv.rc;
    xs = inv.xs;
    ys = inv.ys;
    has_producer = inv.has_producer;
    has_consumer = inv.has_consumer;
    producer = inv.producer;
    consumer = inv.consumer;
    room = inv.room;
    can_force = inv.can_force;
    shared = inv.shared;
  }
  Step-Inv (work_call s data_ok l w w' r pm e f) inv = work_Inv s inv l w r e data_ok w' pm f

  pub Reach-Inv : {s t : System S} → Inv lifo capacity s → Reach lifo s t → Inv lifo capacity t
  Reach-Inv inv here = inv
  Reach-Inv inv (later u st) = Step-Inv st (Reach-Inv inv u)
