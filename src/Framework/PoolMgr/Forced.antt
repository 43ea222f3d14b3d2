-- ===== src/Framework/PoolMgr/Forced.antt =====
-- framework/shining_pool.h: the `force_pop` of `pop`, which may make an element.
use selib.Prelude.{
  count, ℕ, ◌+◌, ◌-◌, ◌≤◌, ◌≡◌, refl, sym, ap, ◌∙◌, inl, inr, Bool, true, false, Option, none, some,
  List, [], ◌∷◌, if◌then◌else◌, arith, length, eq→==,
}
use mathlib.Core.Path.{subst}
use mathlib.Core.Option.{some-injective}
use selib.Container.ResourceStack.{Lifo, ResourceStack, produce}
use selib.Framework.PoolMgr.{PoolMgr, pop_forced}
use selib.Framework.PoolMgr.Pools.{IsPool, force-IsPool, force-IsPool_new, force-IsPool_failed}
use selib.Framework.PoolMgr.System.{System, add, made_by, new_element}
use selib.Framework.PoolMgr.Calls.{Inv, list_cases, popped, popped_empty, pop_forced_eq}

module _ {S : Type 0} (lifo : Lifo S) (capacity : ℕ) where
  module _ (s : System S) (inv : Inv lifo capacity s) where
    -- A new element.
    forced_new :
        (r' : ResourceStack S)
        → inv.xs ≡ []
        → IsPool lifo r' [] (s.made + 1)
        → 1 ≤ s.pm.p_size
        → Inv lifo capacity (record s {
          pm = record s.pm { producer_pool = some r'; p_size = s.pm.p_size - 1 };
          forcing = false;
          mine = s.made ∷ s.mine;
          made = s.made + 1;
        })
    forced_new r' e k one = record {
      rp = r';
      rc = inv.rc;
      xs = [];
      ys = inv.ys;
      has_producer = refl;
      has_consumer = inv.has_consumer;
      producer = k;
      consumer = inv.consumer;
      room = omega (arith, inv.room, one);
      can_force = λ f. cc;
      shared = record {
        whole = omega (arith, inv.shared.whole, ap length e);
        each = λ y. ground (arith, inv.shared.each y, ap (count y) e);
      };
    }

    -- An element that was there is none of the new ones.
    old_element : (x : ℕ) (l : List ℕ) → inv.xs ≡ x ∷ l → made_by (some x) s.made ≡ s.made
    old_element x l e = ground (arith, inv.shared.each x, ap (count x) e, eq→== x x refl)

    -- `force_pop` of no element; the pool is given in the state that the call leaves.
    abbrev pub forced_with : ResourceStack S → PoolMgr S
    forced_with r = record s.pm { producer_pool = some r; p_size = s.pm.p_size - 1 }

    abbrev pub Forced : Option ℕ × PoolMgr S → Type 0
    Forced t =
        Inv lifo capacity
          (record s { pm = t.1; forcing = false; mine = add t.0 s.mine; made = made_by t.0 s.made })

    force_fails :
        (made : Option ℕ) (alloc : Bool)
        → inv.xs ≡ []
        → ((r : ResourceStack S) → produce lifo made alloc r ≡ (none, r))
        → (t : Option ℕ × PoolMgr S) × (pop_forced lifo made alloc s.pm ≡ some t) × Forced t
    force_fails made alloc e f =
        let (r', g, k) =
          force-IsPool_failed lifo made alloc inv.rp s.made f
            (subst (λ z. IsPool lifo inv.rp z s.made) e inv.producer) in
        (
          (none, forced_with r'),
          pop_forced_eq lifo capacity s inv made alloc none r' g,
          popped_empty lifo capacity s inv r' e k (s.pm.p_size - 1) false (omega arith) (λ h. cc),
        )

    force_makes :
        inv.xs ≡ []
        → 1 ≤ s.pm.p_size
        → (t : Option ℕ × PoolMgr S) × (pop_forced lifo (some s.made) true s.pm ≡ some t) × Forced t
    force_makes e one =
        let (r', g, k) =
          force-IsPool_new lifo s.made inv.rp s.made
            (subst (λ z. IsPool lifo inv.rp z s.made) e inv.producer) in
        (
          (some s.made, forced_with r'),
          pop_forced_eq lifo capacity s inv (some s.made) true (some s.made) r' g,
          subst
              (λ n. Inv lifo capacity (record s {
                pm = forced_with r';
                forcing = false;
                mine = s.made ∷ s.mine;
                made = n;
              }))
              (sym (ap (λ b. if b then s.made + 1 else s.made) (eq→== s.made s.made refl)))
              (forced_new r' e k one),
        )

    force_empty :
        (new_ok alloc : Bool)
        → inv.xs ≡ []
        → 1 ≤ s.pm.p_size
        → (t : Option ℕ × PoolMgr S) × (pop_forced lifo (new_element new_ok s.made) alloc s.pm
            ≡ some t)
          × Forced t
    unfolding produce
    force_empty true true e one = force_makes e one
    force_empty true false e one = force_fails (some s.made) false e (λ r. refl)
    force_empty false alloc e one = force_fails none alloc e (λ r. refl)

    force_full :
        (made : Option ℕ) (alloc : Bool) (x : ℕ) (l : List ℕ)
        → inv.xs ≡ x ∷ l
        → (t : Option ℕ × PoolMgr S) × (pop_forced lifo made alloc s.pm ≡ some t) × Forced t
    force_full made alloc x l e =
        let (r', g, k) =
          force-IsPool lifo made alloc inv.rp x l s.made
            (subst (λ z. IsPool lifo inv.rp z s.made) e inv.producer) in
        (
          (some x, forced_with r'),
          pop_forced_eq lifo capacity s inv made alloc (some x) r' g,
          subst
              (λ n.
                Inv lifo capacity
                  (record s { pm = forced_with r'; forcing = false; mine = x ∷ s.mine; made = n }))
              (sym (old_element x l e))
              (popped lifo capacity s inv x l r' e k (s.pm.p_size - 1) (omega arith)),
        )

    forced :
        (new_ok alloc : Bool)
        → s.forcing ≡ true
        → (t : Option ℕ × PoolMgr S) × (pop_forced lifo (new_element new_ok s.made) alloc s.pm
            ≡ some t)
          × Forced t
    forced new_ok alloc h = elim (list_cases inv.xs) [
      | inl e ↦ force_empty new_ok alloc e (inv.can_force h)
      | inr (x, l, e) ↦ force_full (new_element new_ok s.made) alloc x l e
    ]

    pub force_Inv :
        (new_ok alloc : Bool) (p : Option ℕ) (pm : PoolMgr S)
        → s.forcing ≡ true
        → pop_forced lifo (new_element new_ok s.made) alloc s.pm ≡ some (p, pm)
        → Forced (p, pm)
    force_Inv new_ok alloc p pm h f =
        let (t, g, i) = forced new_ok alloc h in
        subst Forced (some-injective t (p, pm) (sym g ∙ f)) i
