-- ===== src/Algorithm/HeapSort/Settle.antt =====
-- algorithm/heap_sort.h: what `_max` and `_min` make of a tree whose pointers are all set.
use selib.Prelude.{
  count, count-append, ℕ, ◌≤◌, ◌≡◌, refl, sym, inl, inr, Bool, true, false, some, List, [], ◌∷◌,
  ◌++◌, arith, eq→==, Bool-cases, ℕ_discrete,
}
use mathlib.Core.Path.{subst}
use selib.Algorithm.HeapSort.{Link, null, wild, node, lift, settle}

-- The values, a node before its children.
abbrev pub elements : Link → List ℕ
elements null = []
elements wild = []
elements (node v l r) = v ∷ (elements l ++ elements r)

abbrev pub IsBound : Link → Type 0
IsBound null = Unit
IsBound wild = ⊥
IsBound (node v l r) = IsBound l × IsBound r

module _ (before : ℕ → ℕ → Bool) where
  -- No value of a list comes after the first one.
  abbrev pub Leads : ℕ → List ℕ → Type 0
  Leads v l = (x : ℕ) → 1 ≤ count x l → before v x ≡ false

  abbrev pub IsTopped : Link → Type 0
  IsTopped null = Unit
  IsTopped wild = Unit
  IsTopped (node v l r) = Leads v (elements (node v l r))

  module _ (irrefl : (a : ℕ) → before a a ≡ false)
      (asym : (a b : ℕ) → before a b ≡ true → before b a ≡ false)
      (trans : (a b c : ℕ) → before a b ≡ false → before b c ≡ false → before a c ≡ false) where
    -- A value in front of a list that it leads.
    Leads-cons :
        (v : ℕ) (l : List ℕ) → ((x : ℕ) → 1 ≤ count x l → before v x ≡ false) → Leads v (v ∷ l)
    Leads-cons v l f x h = elim (ℕ_discrete x v) [
      | yes e ↦ subst (λ y. before v y ≡ false) (sym e) (irrefl v)
      | no n ↦ f x (ground (arith, h))
    ]

    lift_lem :
        (v : ℕ) (t : Link)
        → IsBound t
        → IsTopped t
        → let r = lift before v t in
          IsBound r.1
          × ((x : ℕ) → count x (r.0 ∷ elements r.1) ≡ count x (v ∷ elements t))
          × Leads r.0 (v ∷ elements t)
    unfolding lift
    lift_lem v null s t = (tt, λ x. refl, Leads-cons v [] (λ x h. absurd (omega (arith, h))))
    lift_lem v wild s t = absurd s
    lift_lem v (node w l r) s t = elim (Bool-cases (before v w)) [
      | inl e ↦ rw e (
        s,
        λ x. omega arith,
        λ x h. elim (ℕ_discrete x v) [
          | yes f ↦ subst (λ y. before w y ≡ false) (sym f) (asym v w e)
          | no n ↦ t x (ground (arith, h))
        ],
      )
      | inr e ↦
          rw e (s, λ x. refl, Leads-cons v (elements (node w l r)) (λ x h. trans v w x e (t x h)))
    ]

    -- `_max` and `_min` end, keep the values, and bring the one that leads the others to the root.
    pub settle_lem :
        (t : Link)
        → IsBound t
        → (t' : Link) × (settle before t ≡ some t')
          × IsBound t'
          × ((x : ℕ) → count x (elements t') ≡ count x (elements t))
          × IsTopped t'
    unfolding settle
    settle_lem null s = (null, refl, tt, λ x. refl, tt)
    settle_lem wild s = absurd s
    settle_lem (node v l r) (sl, sr) =
        let (l', el, sl', cl, tl) = settle_lem l sl in
        let (r', er, sr', cr, tr) = settle_lem r sr in
        let a = lift before v l' in
        let (sa, ca, la) = lift_lem v l' sl' tl in
        let b = lift before a.0 r' in
        let (sb, cb, lb) = lift_lem a.0 r' sr' tr in
        let same : (x : ℕ)
            → count x (elements (node b.0 a.1 b.1)) ≡ count x (elements (node v l r)) =
          λ x. omega (
            arith,
            count-append x (elements a.1) (elements b.1),
            count-append x (elements l) (elements r),
            ca x,
            cb x,
            cl x,
            cr x,
          ) in
        (
          node b.0 a.1 b.1,
          rw (el, er) refl,
          (sa, sb),
          same,
          Leads-cons b.0 (elements a.1 ++ elements b.1) (λ x h.
              elim (ℕ_discrete (count x (elements a.1)) 0) [
                | yes z ↦
                    lb x (omega (arith, h, z, count-append x (elements a.1) (elements b.1), cb x))
                | no n ↦
                    trans b.0 a.0 x (lb a.0 (ground (arith, eq→== a.0 a.0 refl)))
                      (la x (ground (arith, n, ca x)))
              ]),
        )
