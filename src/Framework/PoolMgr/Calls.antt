-- ===== src/Framework/PoolMgr/Calls.antt =====
-- framework/shining_pool.h: the state of the pools while elements go round, and what `push` and the first call of
-- `pop` make of it.
use selib.Prelude.{
  count, count-append, ℕ, ◌+◌, ◌-◌, ◌≤◌, ◌≡◌, refl, sym, ap, ◌∙◌, inl, inr, ◌⊎◌, Bool, true, false,
  Option, none, some, List, [], ◌∷◌, ◌++◌, if◌then◌else◌, ltb, arith, length, length-append, ltb→lt,
}
use mathlib.Core.Path.{subst}
use mathlib.Core.Option.{some-injective}
use selib.Container.ResourceStack
use selib.Container.ResourceStack.{Lifo, ResourceStack, produce, force_pop}
use selib.Framework.PoolMgr.{PoolMgr, push, pop_first, pop_forced}
use selib.Framework.PoolMgr.Pools.{IsPool, push-IsPool, pop-IsPool, pop-IsPool_empty}
use selib.Framework.PoolMgr.System.{System, add, held, SharedOut}

pub list_cases : (l : List ℕ) → (l ≡ []) ⊎ ((x : ℕ) × (r : List ℕ) × (l ≡ x ∷ r))
list_cases [] = inl refl
list_cases (x ∷ r) = inr (x, r, refl)

module _ {S : Type 0} (lifo : Lifo S) (capacity : ℕ) where
  -- The two pools: `capacity` holders in the consumer's, as many as elements in the producer's, which may still
  -- make `p_size` more; and the elements are shared out.
  pub record Inv (s : System S) : Type 0 where
    pub rp : ResourceStack S
    pub rc : ResourceStack S
    pub xs : List ℕ
    pub ys : List ℕ
    pub has_producer : s.pm.producer_pool ≡ some rp
    pub has_consumer : s.pm.consumer_pool ≡ some rc
    pub producer : IsPool lifo rp xs s.made
    pub consumer : IsPool lifo rc ys capacity
    pub room : s.made + s.pm.p_size ≤ capacity
    pub can_force : s.forcing ≡ true → 1 ≤ s.pm.p_size
    pub shared : SharedOut s.made s.mine ys (held s.workers) xs

  module _ (s : System S) (inv : Inv s) where
    abbrev pub with_producer : ResourceStack S → PoolMgr S
    with_producer r = record s.pm { producer_pool = some r }

    abbrev pub with_consumer : ResourceStack S → PoolMgr S
    with_consumer r = record s.pm { consumer_pool = some r }

    pop_first_eq :
        (p : Option ℕ) (r' : ResourceStack S)
        → ResourceStack.pop lifo inv.rp ≡ (p, r')
        → pop_first lifo s.pm
          ≡ some (p, elim p [ none ↦ ltb 0 s.pm.p_size | some x ↦ false ], with_producer r')
    unfolding pop_first
    pop_first_eq p r' e = rw (inv.has_producer, e) refl

    pub pop_forced_eq :
        (made : Option ℕ) (alloc : Bool) (p : Option ℕ) (r' : ResourceStack S)
        → force_pop lifo made alloc inv.rp ≡ (p, r')
        → pop_forced lifo made alloc s.pm
          ≡ some (p, record s.pm { producer_pool = some r'; p_size = s.pm.p_size - 1 })
    unfolding pop_forced
    pop_forced_eq made alloc p r' e = rw (inv.has_producer, e) refl

    push_eq :
        (x : ℕ) (b : Bool) (r' : ResourceStack S)
        → ResourceStack.push lifo (some x) inv.rc ≡ (b, r')
        → push lifo (some x) s.pm ≡ some (b, with_consumer r')
    unfolding push
    push_eq x b r' e = rw (inv.has_consumer, e) refl

    -- An element that the caller has in hand finds a free holder.
    pub push_lem :
        (a : List ℕ) (x : ℕ) (b : List ℕ)
        → s.mine ≡ a ++ x ∷ b
        → (r' : ResourceStack S) × (push lifo (some x) s.pm ≡ some (true, with_consumer r'))
          × IsPool lifo r' (x ∷ inv.ys) capacity
    push_lem a x b e =
        let (r', p, k) =
          push-IsPool lifo x inv.rc inv.ys capacity inv.consumer
            (omega (arith, inv.shared.whole, inv.room, ap length e, length-append a (x ∷ b))) in
        (r', push_eq x true r' p, k)

    pub push_Inv :
        (a : List ℕ) (x : ℕ) (b : List ℕ) (ok : Bool) (pm : PoolMgr S)
        → s.mine ≡ a ++ x ∷ b
        → push lifo (some x) s.pm ≡ some (ok, pm)
        → Inv (record s { pm = pm; mine = if ok then a ++ b else s.mine })
    push_Inv a x b ok pm e f =
        let (r', g, k) = push_lem a x b e in
        let inv' : Inv (record s { pm = with_consumer r'; mine = a ++ b }) = record {
          rp = inv.rp;
          rc = r';
          xs = inv.xs;
          ys = x ∷ inv.ys;
          has_producer = inv.has_producer;
          has_consumer = refl;
          producer = inv.producer;
          consumer = k;
          room = inv.room;
          can_force = inv.can_force;
          shared = record {
            whole =
                omega (
                  arith,
                  inv.shared.whole,
                  ap length e,
                  length-append a (x ∷ b),
                  length-append a b,
                );
            each = λ y. omega (
              arith,
              inv.shared.each y,
              ap (count y) e,
              count-append y a (x ∷ b),
              count-append y a b,
            );
          };
        } in
        subst (λ t. Inv (record s { pm = t.1; mine = if t.0 then a ++ b else s.mine }))
          (some-injective (true, with_consumer r') (ok, pm) (sym g ∙ f)) inv'

    -- The producer's pool is popped: with elements, and without.
    pub popped :
        (x : ℕ) (l : List ℕ) (r' : ResourceStack S)
        → inv.xs ≡ x ∷ l
        → IsPool lifo r' l s.made
        → (n : ℕ) → n ≤ s.pm.p_size
        → Inv (record s {
          pm = record s.pm { producer_pool = some r'; p_size = n };
          forcing = false;
          mine = x ∷ s.mine;
        })
    popped x l r' e k n h = record {
      rp = r';
      rc = inv.rc;
      xs = l;
      ys = inv.ys;
      has_producer = refl;
      has_consumer = inv.has_consumer;
      producer = k;
      consumer = inv.consumer;
      room = omega (arith, inv.room, h);
      can_force = λ f. cc;
      shared = record {
        whole = omega (arith, inv.shared.whole, ap length e);
        each = λ y. omega (arith, inv.shared.each y, ap (count y) e);
      };
    }

    pub popped_empty :
        (r' : ResourceStack S)
        → inv.xs ≡ []
        → IsPool lifo r' [] s.made
        → (n : ℕ) (more : Bool) → n ≤ s.pm.p_size
        → (more ≡ true → 1 ≤ n)
        → Inv
            (record s { pm = record s.pm { producer_pool = some r'; p_size = n }; forcing = more })
    popped_empty r' e k n more h f = record {
      rp = r';
      rc = inv.rc;
      xs = [];
      ys = inv.ys;
      has_producer = refl;
      has_consumer = inv.has_consumer;
      producer = k;
      consumer = inv.consumer;
      room = omega (arith, inv.room, h);
      can_force = f;
      shared = record {
        whole = omega (arith, inv.shared.whole, ap length e);
        each = λ y. omega (arith, inv.shared.each y, ap (count y) e);
      };
    }

    pub pop_Inv :
        (p : Option ℕ) (more : Bool) (pm : PoolMgr S)
        → pop_first lifo s.pm ≡ some (p, more, pm)
        → Inv (record s { pm = pm; forcing = more; mine = add p s.mine })
    pop_Inv p more pm f =
        let after =
          λ (q : Option ℕ) (b : Bool) (r' : ResourceStack S)
              (g : pop_first lifo s.pm ≡ some (q, b, with_producer r')).
            subst (λ t. Inv (record s { pm = t.2; forcing = t.1; mine = add t.0 s.mine }))
              (some-injective (q, b, with_producer r') (p, more, pm) (sym g ∙ f)) in
        elim (list_cases inv.xs) [
          | inl e ↦
              let (r', g, k) =
                pop-IsPool_empty lifo inv.rp s.made
                  (subst (λ l. IsPool lifo inv.rp l s.made) e inv.producer) in
              after none (ltb 0 s.pm.p_size) r' (pop_first_eq none r' g) (
                popped_empty r' e k s.pm.p_size (ltb 0 s.pm.p_size) (omega arith)
                  (λ h. ltb→lt 0 s.pm.p_size h))
          | inr (x, l, e) ↦
              let (r', g, k) =
                pop-IsPool lifo inv.rp x l s.made
                  (subst (λ z. IsPool lifo inv.rp z s.made) e inv.producer) in
              after (some x) false r' (pop_first_eq (some x) r' g)
                (popped x l r' e k s.pm.p_size (omega arith))
        ]
