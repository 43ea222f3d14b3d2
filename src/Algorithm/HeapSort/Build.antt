-- ===== src/Algorithm/HeapSort/Build.antt =====
-- algorithm/heap_sort.h: `build` puts the whole array into the tree.
use selib.Prelude.{
  count, ℕ, zero, suc, ◌+◌, ◌*◌, ◌≤◌, ◌<◌, ◌≡◌, ◌≢◌, refl, sym, ap, ◌∙◌, inl, inr, Bool, true,
  false, ◌&&◌, Option, some, List, [], ◌∷◌, ◌++◌, ◌>>=◌, arith, ltb, leb, length, get_elem?, drop,
  eq→==, Bool-cases, lt→ltb, leb→le,
}
use mathlib.Core.List.{append_assoc, append-nil}
use selib.Algorithm.HeapSort.{Link, null, wild, node, unset, build_node, build, settle, top}
use selib.Algorithm.HeapSort.Settle.{elements, IsBound, IsTopped, Leads, settle_lem}
use selib.Algorithm.HeapSort.Sizes.{size, size_in, size_out, size_pos, size_one}

drop_next :
    (l : List ℕ) (i : ℕ)
    → i < length l
    → (v : ℕ) × (get_elem? l i ≡ some v) × (drop i l ≡ v ∷ drop (i + 1) l)
drop_next [] i h = absurd (omega (arith, h))
drop_next (x ∷ l) zero h = (x, refl, refl)
drop_next (x ∷ l) (suc i) h =
    let (v, e, f) = drop_next l i (omega (arith, h)) in
    let s : suc (i + 1) ≡ suc i + 1 = omega arith in (v, e, f ∙ ap (λ j. v ∷ drop j (x ∷ l)) s)

drop_whole : (l : List ℕ) → drop (length l) l ≡ []
drop_whole [] = refl
drop_whole (x ∷ l) = drop_whole l

and_true : (a b : Bool) → a ≡ true → b ≡ true → (a && b) ≡ true
and_true a b e f = ground (arith, e, f)

and_false : (a b : Bool) → b ≡ false → (a && b) ≡ false
and_false a b f = ground (arith, f)

-- Lists with the same elements are empty together.
empty_too : (l r : List ℕ) → ((x : ℕ) → count x l ≡ count x r) → l ≡ [] → length r ≡ 0
empty_too l [] same e = refl
empty_too l (y ∷ r) same e = absurd (ground (arith, same y, ap (count y) e, eq→== y y refl))

root :
    (before : ℕ → ℕ → Bool) (t : Link)
    → IsTopped before t
    → elements t ≢ []
    → (v : ℕ) × (top t ≡ some v) × (1 ≤ count v (elements t)) × Leads before v (elements t)
unfolding top
root before null h n = absurd (n refl)
root before wild h n = absurd (n refl)
root before (node v l r) h n = (v, refl, ground (arith, eq→== v v refl), h)

module _ (alloc : ℕ → Bool) (arr : List ℕ) (ok : (i : ℕ) → alloc i ≡ true) where
  abbrev len : ℕ
  len = length arr

  -- The tree of a number has the next elements, as many as there are numbers below it.
  Built : ℕ → ℕ → ℕ → Type 0
  Built f i pos =
      (t : Link) × (q : ℕ) × (build_node true alloc arr f i pos ≡ some (t, q))
      × (q + 1 ≡ pos + size len f i)
      × IsBound t
      × (drop pos arr ≡ elements t ++ drop (q + 1) arr)

  -- The branches of one call.
  module _ (f i pos v : ℕ) (g : get_elem? arr pos ≡ some v) where
    leaf_eq :
        (ltb (pos + 1) len && leb (2 * i) len) ≡ false
        → build_node true alloc arr (suc f) i pos ≡ some (node v null null, pos)
    unfolding build_node unset
    leaf_eq c = rw (g, ok pos, c) refl

    module _ (c : (ltb (pos + 1) len && leb (2 * i) len) ≡ true) (l : Link) (p : ℕ)
        (b : build_node true alloc arr f (2 * i) (pos + 1) ≡ some (l, p)) where
      -- What follows the left child, by the test.
      abbrev second : Bool → Option (Link × ℕ)
      second z = elim z [
        | false ↦ some (node v l (unset true), p)
        | true ↦ build_node true alloc arr f (2 * i + 1) (p + 1) >>= λ x. some (node v l x.0, x.1)
      ]

      left_eq :
          (ltb (p + 1) len && leb (2 * i + 1) len) ≡ false
          → build_node true alloc arr (suc f) i pos ≡ some (node v l null, p)
      unfolding build_node unset
      left_eq d = rw (g, ok pos, c, b) (ap second d)

      both_eq :
          (t : Link) (q : ℕ)
          → (ltb (p + 1) len && leb (2 * i + 1) len) ≡ true
          → build_node true alloc arr f (2 * i + 1) (p + 1) ≡ some (t, q)
          → build_node true alloc arr (suc f) i pos ≡ some (node v l t, q)
      unfolding build_node unset
      both_eq t q d h =
          rw (g, ok pos, c, b) (ap second d) ∙ ap (λ o. o >>= λ x. some (node v l x.0, x.1)) h

  build_node_lem :
      (f i pos : ℕ) → 1 ≤ i → i ≤ len → len < i + f → pos + size len f i ≤ len → Built f i pos
  unfolding Built
  build_node_lem zero i pos one h k r = absurd (omega (arith, h, k))
  build_node_lem (suc f) i pos one h k r =
      let all = size_in len f i h in
      let (v, g, d) = drop_next arr pos (omega (arith, all, r)) in
      elim (Bool-cases (leb (2 * i) len)) [
        | inr e ↦
            let c : (ltb (pos + 1) len && leb (2 * i) len) ≡ false =
              and_false (ltb (pos + 1) len) _ e in
            let z1 = size_out len f (2 * i) (ground (arith, e)) in
            let z2 = size_out len f (2 * i + 1) (ground (arith, e)) in
            (node v null null, pos, leaf_eq f i pos v g c, omega (arith, all, z1, z2), (tt, tt), d)
        | inl e ↦
            let c : (ltb (pos + 1) len && leb (2 * i) len) ≡ true =
              and_true (ltb (pos + 1) len) (leb (2 * i) len)
                (lt→ltb (pos + 1) len (
                  omega (
                    arith,
                    all,
                    r,
                    size_pos len f (2 * i) (omega (arith, one, k, leb→le (2 * i) len e))
                        (leb→le (2 * i) len e),
                  )))
                e in
            let (l, p, bl, el, sl, dl) =
              build_node_lem f (2 * i) (pos + 1) (omega (arith, one)) (leb→le (2 * i) len e)
                (omega (arith, one, k)) (omega (arith, all, r)) in
            elim (Bool-cases (leb (2 * i + 1) len)) [
              | inr e2 ↦
                  let c2 : (ltb (p + 1) len && leb (2 * i + 1) len) ≡ false =
                    and_false (ltb (p + 1) len) (leb (2 * i + 1) len) e2 in
                  let z2 = size_out len f (2 * i + 1) (ground (arith, e2)) in
                  (
                    node v l null,
                    p,
                    left_eq f i pos v g c l p bl c2,
                    omega (arith, all, el, z2),
                    (sl, tt),
                    d
                        ∙ ap (◌∷◌ v) dl
                        ∙ ap (λ z. v ∷ (z ++ drop (p + 1) arr)) (sym (append-nil (elements l))),
                  )
              | inl e2 ↦
                  let b2 = leb→le (2 * i + 1) len e2 in
                  let c2 : (ltb (p + 1) len && leb (2 * i + 1) len) ≡ true =
                    and_true (ltb (p + 1) len) (leb (2 * i + 1) len)
                      (lt→ltb (p + 1) len (
                        omega (
                          arith,
                          all,
                          r,
                          el,
                          size_pos len f (2 * i + 1) (omega (arith, one, k, b2)) b2,
                        )))
                      e2 in
                  let (t, q, bt, et, st, dt) =
                    build_node_lem f (2 * i + 1) (p + 1) (omega arith) b2 (omega (arith, one, k))
                      (omega (arith, all, r, el)) in
                  (
                    node v l t,
                    q,
                    both_eq f i pos v g c l p bl t q c2 bt,
                    omega (arith, all, el, et),
                    (sl, st),
                    d
                        ∙ ap (◌∷◌ v) dl
                        ∙ ap (λ z. v ∷ (elements l ++ z)) dt
                        ∙ ap (◌∷◌ v)
                            (sym (append_assoc (elements l) (elements t) (drop (q + 1) arr))),
                  )
            ]
      ]

  -- `build` of an array that is not empty makes a tree of all of it, if memory of `new` is zero.
  pub build_lem :
      1 ≤ len → (t : Link) × (build true alloc arr ≡ some t) × IsBound t × (elements t ≡ arr)
  unfolding build Built
  build_lem one =
      let e = size_one len (len + 1) (omega arith) in
      let (t, q, b, k, s, d) =
        build_node_lem (len + 1) 1 0 (omega arith) one (omega arith) (omega (arith, e)) in
      let end : q + 1 ≡ len = omega (arith, k, e) in
      (
        t,
        rw b refl,
        s,
        sym (append-nil (elements t))
            ∙ ap (λ z. elements t ++ z) (sym (drop_whole arr))
            ∙ ap (λ n. elements t ++ drop n arr) (sym end)
            ∙ sym d,
      )

  module _ (before : ℕ → ℕ → Bool) (irrefl : (a : ℕ) → before a a ≡ false)
      (asym : (a b : ℕ) → before a b ≡ true → before b a ≡ false)
      (trans : (a b c : ℕ) → before a b ≡ false → before b c ≡ false → before a c ≡ false) where
    -- The root has a value of the array that leads the others.
    pub settle_built :
        1 ≤ len
        → (t : Link) × (t' : Link) × (v : ℕ) × (build true alloc arr ≡ some t)
          × (settle before t ≡ some t')
          × (top t' ≡ some v)
          × (1 ≤ count v arr)
          × ((x : ℕ) → 1 ≤ count x arr → before v x ≡ false)
    unfolding top
    settle_built one =
        let (t, b, s, e) = build_lem one in
        let (t', g, _, c, h) = settle_lem before irrefl asym trans t s in
        let same : (x : ℕ) → count x (elements t') ≡ count x arr = λ x. c x ∙ ap (count x) e in
        let (v, k, here, lead) =
          root before t' h (λ z. omega (arith, one, empty_too (elements t') arr same z)) in
        (t, t', v, b, g, k, omega (arith, here, same v), λ x p. lead x (omega (arith, same x, p)))
