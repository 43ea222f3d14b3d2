-- ===== src/Container/LruCache/Circle.antt =====
-- container/circle_cache.h: doubly linked circles, by the two functions from a slot to its neighbours, and
-- what taking a slot out and putting it in before the head does to the order.
use selib.Prelude.{
  count, count-append, ℕ, ◌≤◌, ◌≡◌, ◌≢◌, refl, sym, ap, ◌∙◌, List, [], ◌∷◌, ◌++◌, ◌==◌,
  if◌then◌else◌, arith, ne→==, eq→==, ℕ_discrete,
}
use mathlib.Core.Path.{subst}
use mathlib.Core.List.{append-nil}

abbrev pub IsDistinct : List ℕ → Type 0
IsDistinct l = (x : ℕ) → count x l ≤ 1

-- A write to a function.
abbrev pub upd : (ℕ → ℕ) → ℕ → ℕ → ℕ → ℕ
upd f i v j = if i == j then v else f j

pub upd_self : (f : ℕ → ℕ) (i v : ℕ) → upd f i v i ≡ v
upd_self f i v = rw (eq→== i i refl)

pub upd_other : (f : ℕ → ℕ) (i v j : ℕ) → i ≢ j → upd f i v j ≡ f j
upd_other f i v j d = rw (ne→== i j d)

pub upd_hit : (f : ℕ → ℕ) (i v j : ℕ) → i ≡ j → upd f i v j ≡ v
upd_hit f i v j e = rw (eq→== i j e)

-- A write of what is there.
pub upd_idle : (f : ℕ → ℕ) (i v : ℕ) → f i ≡ v → (j : ℕ) → upd f i v j ≡ f j
upd_idle f i v e j = elim (ℕ_discrete i j) [
  | yes h ↦ upd_hit f i v j h ∙ sym e ∙ ap f h
  | no h ↦ upd_other f i v j h
]

-- From `a` the slots of the list follow one another, and after them `b`; `nx` leads forth and `ls` back.
unfoldable pub Chain : (ℕ → ℕ) → (ℕ → ℕ) → ℕ → List ℕ → ℕ → Type 0
Chain nx ls a [] b = (nx a ≡ b) × (ls b ≡ a)
Chain nx ls a (x ∷ l) b = (nx a ≡ x) × (ls x ≡ a) × Chain nx ls x l b

-- The last slot of `a` and the list after it.
abbrev pub end : ℕ → List ℕ → ℕ
end a [] = a
end a (x ∷ l) = end x l

pub end_counted : (a : ℕ) (l : List ℕ) → 1 ≤ count (end a l) (a ∷ l)
end_counted a [] = ground (arith, eq→== a a refl)
end_counted a (x ∷ l) = omega (arith, end_counted x l)

module _ (nx ls : ℕ → ℕ) where
  pub Chain-end : (a : ℕ) (l : List ℕ) (b : ℕ) → Chain nx ls a l b → ls b ≡ end a l
  unfolding Chain
  Chain-end a [] b (e, f) = f
  Chain-end a (x ∷ l) b (e, f, c) = Chain-end x l b c

  pub Chain-split :
      (a : ℕ) (l : List ℕ) (x : ℕ) (r : List ℕ) (b : ℕ)
      → Chain nx ls a (l ++ x ∷ r) b
      → Chain nx ls a l x × Chain nx ls x r b
  unfolding Chain
  Chain-split a [] x r b (e, f, c) = ((e, f), c)
  Chain-split a (y ∷ l) x r b (e, f, c) = let (c1, c2) = Chain-split y l x r b c in ((e, f, c1), c2)

  pub Chain-join :
      (a : ℕ) (l : List ℕ) (x : ℕ) (r : List ℕ) (b : ℕ)
      → Chain nx ls a l x
      → Chain nx ls x r b
      → Chain nx ls a (l ++ x ∷ r) b
  unfolding Chain
  Chain-join a [] x r b (e, f) c = (e, f, c)
  Chain-join a (y ∷ l) x r b (e, f, c1) c = (e, f, Chain-join y l x r b c1 c)

  -- A chain depends on the forth links of all slots but the last, and on the back links of all but the first.
  pub Chain-frame :
      (nx' ls' : ℕ → ℕ) (a : ℕ) (l : List ℕ) (b : ℕ)
      → ((i : ℕ) → 1 ≤ count i (a ∷ l) → nx' i ≡ nx i)
      → ((i : ℕ) → 1 ≤ count i l → ls' i ≡ ls i)
      → ls' b ≡ ls b
      → Chain nx ls a l b
      → Chain nx' ls' a l b
  unfolding Chain
  Chain-frame nx' ls' a [] b p q e (f, g) = (p a (ground (arith, eq→== a a refl)) ∙ f, e ∙ g)
  Chain-frame nx' ls' a (x ∷ l) b p q e (f, g, c) = (
    p a (ground (arith, eq→== a a refl)) ∙ f,
    q x (ground (arith, eq→== x x refl)) ∙ g,
    Chain-frame nx' ls' x l b (λ i h. p i (omega arith)) (λ i h. q i (omega arith)) e c,
  )

  -- The last link is led to another slot.
  pub Chain-relink :
      (a : ℕ) (l : List ℕ) (b b' : ℕ)
      → IsDistinct (a ∷ l)
      → count b' l ≡ 0
      → Chain nx ls a l b
      → Chain (upd nx (end a l) b') (upd ls b' (end a l)) a l b'
  unfolding Chain
  Chain-relink a [] b b' d n c = (upd_self nx a b', upd_self ls b' a)
  Chain-relink a (x ∷ l) b b' d n (e, f, c) =
      let away : end x l ≢ a = λ h.
        let k : 1 ≤ count a (x ∷ l) = subst (λ z. 1 ≤ count z (x ∷ l)) h (end_counted x l) in
        ground (arith, d a) in
      let other : b' ≢ x = λ h. ground (arith, n) in
      (
        upd_other nx (end x l) b' a away ∙ e,
        upd_other ls b' (end x l) x other ∙ f,
        Chain-relink x l b b' (λ i. omega (arith, d i)) (omega arith) c,
      )

-- The first of a list, or another slot.
abbrev pub first : ℕ → List ℕ → ℕ
first d [] = d
first d (x ∷ l) = x

pub first_counted : (d : ℕ) (l : List ℕ) → 1 ≤ count (first d l) (d ∷ l)
first_counted d [] = ground (arith, eq→== d d refl)
first_counted d (x ∷ l) = ground (arith, eq→== x x refl)

module _ (nx ls : ℕ → ℕ) where
  pub Chain-first : (a : ℕ) (l : List ℕ) (b : ℕ) → Chain nx ls a l b → nx a ≡ first b l
  unfolding Chain
  Chain-first a [] b (e, f) = e
  Chain-first a (x ∷ l) b (e, f, c) = e

  -- Slots that stand in different parts of a list with no slot twice are different.
  apart : (l r : List ℕ) → IsDistinct (l ++ r) → (i j : ℕ) → 1 ≤ count i l → 1 ≤ count j r → i ≢ j
  apart l r d i j p q h =
      let k : 1 ≤ count i r = subst (λ z. 1 ≤ count z r) (sym h) q in
      omega (arith, d i, count-append i l r)

  unlink_inner :
      (h : ℕ) (l : List ℕ) (x y : ℕ) (r : List ℕ)
      → IsDistinct (h ∷ l ++ x ∷ y ∷ r)
      → Chain nx ls h l x × Chain nx ls x (y ∷ r) h
      → Chain (upd nx (ls x) (nx x)) (upd ls (nx x) (ls x)) h (l ++ y ∷ r) h
  unfolding Chain
  unlink_inner h l x y r d (c1, (e, f, c2)) =
      let front : IsDistinct (h ∷ l) =
        λ i. omega (arith, d i, count-append i (h ∷ l) (x ∷ y ∷ r)) in
      let out : count y (h ∷ l) ≡ 0 =
        ground (arith, d y, count-append y (h ∷ l) (x ∷ y ∷ r), eq→== y y refl) in
      let parted : IsDistinct ((h ∷ l) ++ y ∷ r) = λ i.
        omega (arith, d i, count-append i (h ∷ l) (x ∷ y ∷ r), count-append i (h ∷ l) (y ∷ r)) in
      let last : ℕ = end h l in
      let far : (i : ℕ) → 1 ≤ count i (y ∷ r) → last ≢ i =
        λ i q. apart (h ∷ l) (y ∷ r) parted last i (end_counted h l) q in
      let later : (i : ℕ) → 1 ≤ count i r → y ≢ i = λ i q g. ground (
        arith,
        parted y,
        count-append y (h ∷ l) (y ∷ r),
        eq→== y y refl,
        subst (λ z. 1 ≤ count z r) (sym g) q,
      ) in
      let head : y ≢ h = λ g. ground (arith, out) in
      rw (Chain-end nx ls h l x c1, e)
        (Chain-join (upd nx last y) (upd ls y last) h l y r h
          (Chain-relink nx ls h l x y front (omega (arith, out)) c1)
          (Chain-frame nx ls (upd nx last y) (upd ls y last) y r h
            (λ i q. upd_other nx last y i (far i q)) (λ i q. upd_other ls y last i (later i q))
            (upd_other ls y last h head) c2))

  -- A slot is taken out of a circle: its neighbours are linked to each other.
  pub unlink :
      (h : ℕ) (l : List ℕ) (x : ℕ) (r : List ℕ)
      → IsDistinct (h ∷ l ++ x ∷ r)
      → Chain nx ls h (l ++ x ∷ r) h
      → Chain (upd nx (ls x) (nx x)) (upd ls (nx x) (ls x)) h (l ++ r) h
  unlink h l x [] d c =
      let (c1, c2) = Chain-split nx ls h l x [] h c in
      let front : IsDistinct (h ∷ l) = λ i. omega (arith, d i, count-append i (h ∷ l) (x ∷ [])) in
      let out : count h l ≡ 0 = ground (arith, front h) in
      rw (append-nil l, Chain-end nx ls h l x c1, Chain-first x [] h c2)
        (Chain-relink nx ls h l x h front out c1)
  unlink h l x (y ∷ r) d c = unlink_inner h l x y r d (Chain-split nx ls h l x (y ∷ r) h c)

  -- A slot is put in before the head.
  pub link_last :
      (h : ℕ) (l : List ℕ) (x : ℕ)
      → IsDistinct (h ∷ l)
      → count x (h ∷ l) ≡ 0
      → Chain nx ls h l h
      → Chain (upd (upd nx (ls h) x) x h) (upd (upd ls x (ls h)) h x) h (l ++ x ∷ []) h
  unfolding Chain
  link_last h l x d n c =
      let last : ℕ = end h l in
      let nx1 : ℕ → ℕ = upd nx last x in
      let ls1 : ℕ → ℕ = upd ls x last in
      let other : (i : ℕ) → 1 ≤ count i (h ∷ l) → x ≢ i =
        λ i q g. omega (arith, n, subst (λ z. 1 ≤ count z (h ∷ l)) (sym g) q) in
      let later : (i : ℕ) → 1 ≤ count i l → h ≢ i =
        λ i q g. ground (arith, d h, eq→== h h refl, subst (λ z. 1 ≤ count z l) (sym g) q) in
      let head : h ≢ x = λ g. ground (arith, n) in
      rw (Chain-end nx ls h l h c) (
        Chain-join (upd nx1 x h) (upd ls1 h x) h l x [] h
          (Chain-frame nx1 ls1 (upd nx1 x h) (upd ls1 h x) h l x
            (λ i q. upd_other nx1 x h i (other i q)) (λ i q. upd_other ls1 h x i (later i q))
            (upd_other ls1 h x x head) (Chain-relink nx ls h l h x d (omega (arith, n)) c))
          (upd_self nx1 x h, upd_self ls1 h x))
