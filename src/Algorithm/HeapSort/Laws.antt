-- ===== src/Algorithm/HeapSort/Laws.antt =====
-- algorithm/heap_sort.h: `max` and `min` of a tree that `build` has made.
use selib.Prelude.{
  count, ℕ, zero, suc, ◌+◌, ◌*◌, ◌≤◌, ◌≡◌, refl, sym, ap, ◌∙◌, inl, inr, Bool, true, false, ◌&&◌,
  Option, none, some, List, ltb, leb, ◌>>=◌, arith, length, get_elem?, Bool-cases, Option-cases,
}
use mathlib.Core.Option.{some-injective}
use selib.Algorithm.HeapSort.{
  Link, wild, node, unset, build_node, build, settle, max_node, min_node, max, min,
}
use selib.Algorithm.HeapSort.Build.{build_lem, settle_built}
use selib.Algorithm.HeapSort.Settle.{elements}

-- `build` of an array that is not empty, all allocations done and their memory zero, makes a tree whose nodes, each
-- before its left and then its right child, have the elements of the array in their order; `max` of the tree gives
-- a greatest and `min` a smallest element of the array.
pub extremes :
    (alloc : ℕ → Bool) (arr : List ℕ)
    → ((i : ℕ) → alloc i ≡ true)
    → 1 ≤ length arr
    → (t : Link) × (build true alloc arr ≡ some t)
      × (elements t ≡ arr)
      × ((v : ℕ) × (t' : Link) × (max t ≡ some (some v, t'))
          × (1 ≤ count v arr)
          × ((x : ℕ) → 1 ≤ count x arr → x ≤ v))
      × ((v : ℕ) × (t' : Link) × (min t ≡ some (some v, t'))
          × (1 ≤ count v arr)
          × ((x : ℕ) → 1 ≤ count x arr → v ≤ x))
unfolding max max_node min min_node
extremes alloc arr ok one =
    let (t, t1, v, b, g, k, h, f) =
      settle_built alloc arr ok (λ a b. ltb a b) (λ a. ground arith) (λ a b e. ground (arith, e))
        (λ a b c e f. ground (arith, e, f)) one in
    let (s, s1, w, b', g', k', h', f') =
      settle_built alloc arr ok (λ a b. ltb b a) (λ a. ground arith) (λ a b e. ground (arith, e))
        (λ a b c e f. ground (arith, e, f)) one in
    let (r, b0, _, whole) = build_lem alloc arr ok one in
    let same : s ≡ t = some-injective s t (sym b' ∙ b) in
    (
      t,
      b,
      ap elements (some-injective t r (sym b ∙ b0)) ∙ whole,
      (v, t1, rw (g, k) refl, h, λ x p. ground (arith, f x p)),
      (w, s1, rw (← same, g', k') refl, h', λ x p. ground (arith, f' x p)),
    )

-- The tree, if there is one, cannot be gone through.
abbrev IsTrap : Option (Link × ℕ) → Type 0
IsTrap none = Unit
IsTrap (some x) = (before : ℕ → ℕ → Bool) → settle before x.0 ≡ none

bind-IsTrap :
    (o : Option (Link × ℕ)) (g : Link × ℕ → Option (Link × ℕ))
    → IsTrap o
    → ((x : Link × ℕ) → ((before : ℕ → ℕ → Bool) → settle before x.0 ≡ none) → IsTrap (g x))
    → IsTrap (o >>= g)
bind-IsTrap none g p h = tt
bind-IsTrap (some x) g p h = h x p

left-IsTrap :
    (v : ℕ) (l r : Link)
    → ((before : ℕ → ℕ → Bool) → settle before l ≡ none)
    → (before : ℕ → ℕ → Bool) → settle before (node v l r) ≡ none
unfolding settle
left-IsTrap v l r h before = rw (h before) refl

bind_any :
    (o : Option (Link × ℕ)) (g : Link × ℕ → Link × ℕ)
    → ((x : Link × ℕ) → IsTrap (some (g x)))
    → IsTrap (o >>= λ x. some (g x))
bind_any none g h = tt
bind_any (some x) g h = h x

build_node-IsTrap :
    (alloc : ℕ → Bool) (arr : List ℕ) (f i pos : ℕ) → IsTrap (build_node false alloc arr f i pos)
unfolding build_node unset settle
build_node-IsTrap alloc arr zero i pos = tt
build_node-IsTrap alloc arr (suc f) i pos = elim (Option-cases (get_elem? arr pos)) [
  | inl e ↦ rw e tt
  | inr (v, e) ↦ elim (Bool-cases (alloc pos)) [
    | inr a ↦ rw (e, a) tt
    | inl a ↦ elim (Bool-cases (ltb (pos + 1) (length arr) && leb (2 * i) (length arr))) [
      | inr c ↦ rw (e, a, c) (λ before. refl)
      | inl c ↦
          rw (e, a, c)
            (bind-IsTrap (build_node false alloc arr f (2 * i) (pos + 1)) _
              (build_node-IsTrap alloc arr f (2 * i) (pos + 1))
              (λ x h.
                elim (Bool-cases (ltb (x.1 + 1) (length arr) && leb (2 * i + 1) (length arr))) [
                  | inr d ↦ rw d (left-IsTrap v x.0 wild h)
                  | inl d ↦ rw d (
                      bind_any (build_node false alloc arr f (2 * i + 1) (x.1 + 1))
                        (λ y. (node v x.0 y.0, y.1)) (λ y. left-IsTrap v x.0 y.0 h))
                ]))
    ]
  ]
]

trap :
    (o : Option (Link × ℕ)) (t : Link)
    → IsTrap o
    → (o >>= λ x. some x.0) ≡ some t
    → (before : ℕ → ℕ → Bool) → settle before t ≡ none
trap none t h e before = cc
trap (some x) t h e before = ap (settle before) (sym (some-injective x.0 t e)) ∙ h before

-- Where the memory of new nodes is not zero, `max` and `min` of a tree that `build` has made go through a pointer
-- that was never set.
pub unset_pointers :
    (alloc : ℕ → Bool) (arr : List ℕ) (t : Link)
    → build false alloc arr ≡ some t
    → (max t ≡ none) × (min t ≡ none)
unfolding max max_node min min_node build
unset_pointers alloc arr t e =
    let made = build_node false alloc arr (length arr + 1) 1 0 in
    let h = trap made t (build_node-IsTrap alloc arr (length arr + 1) 1 0) e in
    (rw (h (λ a b. ltb a b)) refl, rw (h (λ a b. ltb b a)) refl)
