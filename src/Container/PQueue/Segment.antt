-- ===== src/Container/PQueue/Segment.antt =====
-- container/pqueue.h: the chain of the nodes from `head` to `tail`, and the ways in which `push` and `front`
-- change it.
use selib.Prelude.{
  ℕ, zero, suc, ◌<◌, ◌≤◌, ◌≡◌, ◌≢◌, refl, sym, ap, ◌∙◌, Option, none, some, List, [], ◌∷◌, ◌++◌,
  get_elem?, set, length, arith, get_elem?-set_ne, get_elem?-set_self, length-append,
}
use selib.Container.PQueue.{Node}

module _ {ℓ} {V : Type ℓ} where
  -- From a pointer on the nodes hold the values, at ascending addresses from `lo` on. The last of them is
  -- the tail; `before` is the tail where there is none.
  unfoldable pub Segment :
      List (Option (Node V)) → ℕ → Option ℕ → Option ℕ → Option ℕ → List V → Type ℓ
  Segment heap lo p before tail [] = (p ≡ none) × (tail ≡ before) × Unit
  Segment heap lo p before tail (v ∷ vs) =
      (a : ℕ) × (next : Option ℕ) × (p ≡ some a)
      × (lo ≤ a)
      × (get_elem? heap a ≡ some (some (record { val = v; next = next })))
      × Segment heap (suc a) next (some a) tail vs

  pub in_range :
      (l : List (Option (Node V))) (i : ℕ) (x : Option (Node V))
      → get_elem? l i ≡ some x
      → i < length l
  in_range [] i x e = cc
  in_range (y ∷ l) zero x e = omega arith
  in_range (y ∷ l) (suc i) x e = omega (arith, in_range l i x e)

  pub get_elem?-front :
      (l : List (Option (Node V))) (y : Option (Node V)) (i : ℕ) (x : Option (Node V))
      → get_elem? l i ≡ some x
      → get_elem? (l ++ y ∷ []) i ≡ some x
  get_elem?-front [] y i x e = cc
  get_elem?-front (z ∷ l) y zero x e = e
  get_elem?-front (z ∷ l) y (suc i) x e = get_elem?-front l y i x e

  pub get_elem?-end :
      (l : List (Option (Node V))) (y : Option (Node V))
      → get_elem? (l ++ y ∷ []) (length l) ≡ some y
  get_elem?-end [] y = refl
  get_elem?-end (z ∷ l) y = get_elem?-end l y

  -- A write below the addresses of a segment leaves it.
  pub Segment-set :
      (heap : List (Option (Node V))) (i lo : ℕ) (c : Option (Node V)) (p before tail : Option ℕ)
      (vs : List V)
      → i < lo
      → Segment heap lo p before tail vs
      → Segment (set heap i c) lo p before tail vs
  unfolding Segment
  Segment-set heap i lo c p before tail [] l s = s
  Segment-set heap i lo c p before tail (v ∷ vs) l (a, next, e, b, g, s) = (
    a,
    next,
    e,
    b,
    get_elem?-set_ne heap {i = i} {j = a} c (λ h. omega arith) ∙ g,
    Segment-set heap i (suc a) c next (some a) tail vs (omega arith) s,
  )

  -- The tail of a segment that is not empty is one of its addresses.
  pub tail_at :
      (heap : List (Option (Node V))) (lo : ℕ) (p before tail : Option ℕ) (v : V) (vs : List V)
      → Segment heap lo p before tail (v ∷ vs)
      → (b : ℕ) × (tail ≡ some b) × (lo ≤ b) × (n : Node V) × (get_elem? heap b ≡ some (some n))
  unfolding Segment
  tail_at heap lo p before tail v [] (a, next, e, b, g, (en, et, u)) =
      (a, et, b, record { val = v; next = next }, g)
  tail_at heap lo p before tail v (w ∷ vs) (a, next, e, b, g, s) =
      let (t, et, bt, n, gt) = tail_at heap (suc a) next (some a) tail w vs s in
      (t, et, omega arith, n, gt)

  -- The heap after a new node for a value is linked to the node of the tail.
  unfoldable pub linked : List (Option (Node V)) → V → ℕ → Node V → List (Option (Node V))
  linked heap x b n =
      set (heap ++ some (record { val = x; next = none }) ∷ []) b
        (some (record n { next = some (length heap) }))

  pub linked_other :
      (heap : List (Option (Node V))) (x : V) (b a : ℕ) (n : Node V) (c : Option (Node V))
      → b ≢ a
      → get_elem? heap a ≡ some c
      → get_elem? (linked heap x b n) a ≡ some c
  unfolding linked
  linked_other heap x b a n c d g =
      get_elem?-set_ne (heap ++ some (record { val = x; next = none }) ∷ []) _ d
      ∙ get_elem?-front heap _ a c g

  pub linked_new :
      (heap : List (Option (Node V))) (x : V) (b : ℕ) (n : Node V)
      → b < length heap
      → get_elem? (linked heap x b n) (length heap) ≡ some (some (record { val = x; next = none }))
  unfolding linked
  linked_new heap x b n l =
      get_elem?-set_ne (heap ++ some (record { val = x; next = none }) ∷ []) _ (λ e. omega arith)
      ∙ get_elem?-end heap _

  linked_self :
      (heap : List (Option (Node V))) (x : V) (b : ℕ) (n : Node V)
      → b < length heap
      → get_elem? (linked heap x b n) b ≡ some (some (record n { next = some (length heap) }))
  unfolding linked
  linked_self heap x b n l =
      get_elem?-set_self (heap ++ some (record { val = x; next = none }) ∷ []) b _
        (omega (arith, length-append heap (some (record { val = x; next = none }) ∷ [])))

  pub Segment-linked :
      (heap : List (Option (Node V))) (lo : ℕ) (p before : Option ℕ) (b : ℕ) (n : Node V) (x v : V)
      (vs : List V)
      → get_elem? heap b ≡ some (some n)
      → Segment heap lo p before (some b) (v ∷ vs)
      → Segment (linked heap x b n) lo p before (some (length heap)) (v ∷ vs ++ x ∷ [])
  unfolding Segment
  Segment-linked heap lo p before b n x v [] g (a, next, e, l, ga, (en, et, u)) =
      let same : b ≡ a = cc in
      let inside : b < length heap = in_range heap b (some n) g in
      let value : n ≡ record { val = v; next = next } = cc in
      let here =
        ap (get_elem? (linked heap x b n)) (sym same)
        ∙ linked_self heap x b n inside
        ∙ ap (λ (k : Node V). some (some (record k { next = some (length heap) }))) value in
      (
        a,
        some (length heap),
        e,
        l,
        here,
        (length heap, none, refl, omega arith, linked_new heap x b n inside, (refl, refl, tt)),
      )
  Segment-linked heap lo p before b n x v (w ∷ vs) g (a, next, e, l, ga, s) =
      let (t, et, bt, nt, gt) = tail_at heap (suc a) next (some a) (some b) w vs s in
      let far : b ≡ t = cc in
      let other : b ≢ a = λ h. omega arith in
      (
        a,
        next,
        e,
        l,
        linked_other heap x b a n _ other ga,
        Segment-linked heap (suc a) next (some a) b n x w vs g s,
      )
