-- ===== src/Container/LruCache/Shapes.antt =====
-- container/circle_cache.h: the circle after the assignments of `put`, after the head moves to a free slot,
-- and after an eviction.
use selib.Prelude.{
  count, count-append, ℕ, ◌<◌, ◌≤◌, ◌≡◌, ◌≢◌, refl, sym, ◌∙◌, Option, List, [], ◌∷◌, ◌++◌, arith,
  length, length-set, length-append, eq→==, Str,
}
use mathlib.Core.Path.{subst}
use mathlib.Core.List.{append_assoc}
use selib.Container.LruCache.{LruCache}
use selib.Container.LruCache.Circle.{
  first, Chain, Chain-join, Chain-frame, Chain-first, first_counted,
}
use selib.Container.LruCache.Writes.{next_of, last_of}
use selib.Container.LruCache.Valid.{Shape, list_bucket}
use selib.Container.LruCache.Store.{
  stored, next-stored, last-stored, evicted, next-evicted, last-evicted,
}

-- A circle begins at its second slot as well.
rotate :
    (nx ls : ℕ → ℕ) (h f : ℕ) (l : List ℕ) → Chain nx ls h (f ∷ l) h → Chain nx ls f (l ++ h ∷ []) f
unfolding Chain
rotate nx ls h f l (e, g, r) = Chain-join nx ls f l h [] f r (e, g)

count-rotate : (i h f : ℕ) (l : List ℕ) → count i (f ∷ l ++ h ∷ []) ≡ count i (h ∷ f ∷ l)
count-rotate i h f l = omega (arith, count-append i (f ∷ l) (h ∷ []))

first-append : (d x : ℕ) (l : List ℕ) → first d (l ++ x ∷ []) ≡ first x l
first-append d x [] = refl
first-append d x (y ∷ l) = refl

module _ {ℓ} {V : Type ℓ} (c : LruCache V) where
  pub head_in : {frees used : List ℕ} → Shape c frees used → c.head < length c.list
  head_in ok =
      omega (arith, ok.list_size, ok.inside c.head (ground (arith, eq→== c.head c.head refl)))

  pub used_in :
      {frees used : List ℕ} (s : ℕ) → Shape c frees used → 1 ≤ count s used → s < length c.list
  used_in {frees} {used} s ok h =
      omega (arith, ok.list_size, ok.inside s (omega (arith, count-append s frees used)))

  pub head_unused : {frees used : List ℕ} → Shape c frees used → count c.head used ≡ 0
  head_unused {frees} {used} ok =
      ground (arith, ok.distinct c.head, count-append c.head frees used, eq→== c.head c.head refl)

  pub Shape-stored :
      {frees used : List ℕ} (p s k : ℕ) (v : Option V) (raw : Str)
      → p < length c.hash
      → s < length c.list
      → Shape c frees used
      → Shape (stored c p s k v raw) frees used
  Shape-stored {frees} {used} p s k v raw hp hs ok = record {
    list_size = length-set c.list s _ ∙ ok.list_size;
    hash_length = length-set c.hash p _ ∙ ok.hash_length;
    power = ok.power;
    small = ok.small;
    few = ok.few;
    many = ok.many;
    linked =
        Chain-frame (next_of c.list) (last_of c.list) (next_of (stored c p s k v raw).list)
          (last_of (stored c p s k v raw).list) c.head (frees ++ used) c.head
          (λ i h. next-stored c p s k v raw hp hs i) (λ i h. last-stored c p s k v raw hp hs i)
          (last-stored c p s k v raw hp hs c.head) ok.linked;
    distinct = ok.distinct;
    inside = ok.inside;
    whole = ok.whole;
    oldest = ok.oldest;
  }

  -- The head moves to the first free slot.
  pub Shape-taken :
      {fs used : List ℕ} (f : ℕ)
      → Shape c (f ∷ fs) used
      → (next_of c.list c.head ≡ f)
        × (c.tail ≢ f)
        × Shape (record c { head = f }) fs (used ++ c.head ∷ [])
  unfolding Chain
  Shape-taken {fs} {used} f ok =
      let h : ℕ = c.head in
      let nx = next_of c.list in
      let ls = last_of c.list in
      let other : c.tail ≢ f = λ e.
        let k : 1 ≤ count f (h ∷ used) =
          subst (λ z. 1 ≤ count z (h ∷ used)) (sym ok.oldest ∙ e) (first_counted h used) in
        ground (arith, ok.distinct f, count-append f fs used, eq→== f f refl) in
      let same : (i : ℕ) → count i (f ∷ fs ++ (used ++ h ∷ [])) ≡ count i (h ∷ f ∷ fs ++ used) =
        λ i. omega (
          arith,
          count-append i fs (used ++ h ∷ []),
          count-append i used (h ∷ []),
          count-append i fs used,
        ) in
      (
        ok.linked.0,
        other,
        record {
          list_size = ok.list_size;
          hash_length = ok.hash_length;
          power = ok.power;
          small = ok.small;
          few = ok.few;
          many = ok.many;
          linked =
              subst (λ l. Chain nx ls f l f) (append_assoc fs used (h ∷ []))
                (rotate nx ls h f (fs ++ used) ok.linked);
          distinct = λ i. omega (arith, same i, ok.distinct i);
          inside = λ i q. ok.inside i (omega (arith, same i));
          whole = omega (
            arith,
            ok.whole,
            length-append fs (used ++ h ∷ []),
            length-append used (h ∷ []),
            length-append fs used,
          );
          oldest = ok.oldest ∙ sym (first-append f h used);
        },
      )

  -- The oldest slot is given up, and is the head then.
  pub Shape-evicted :
      {used : List ℕ} (t : ℕ)
      → Shape c [] (t ∷ used)
      → list_bucket c t < length c.hash
      → (next_of c.list c.head ≡ t) × Shape (evicted c t) [] (used ++ c.head ∷ [])
  unfolding Chain
  Shape-evicted {used} t ok b =
      let h : ℕ = c.head in
      let nx = next_of c.list in
      let ls = last_of c.list in
      let d : LruCache V = evicted c t in
      let inside : t < length c.list = used_in t ok (ground (arith, eq→== t t refl)) in
      let same : (i : ℕ) → count i (t ∷ (used ++ h ∷ [])) ≡ count i (h ∷ t ∷ used) =
        λ i. omega (arith, count-append i used (h ∷ [])) in
      (
        ok.linked.0,
        record {
          list_size = length-set c.list t _ ∙ ok.list_size;
          hash_length = length-set c.hash (list_bucket c t) _ ∙ ok.hash_length;
          power = ok.power;
          small = ok.small;
          few = ok.few;
          many = ok.many;
          linked =
              Chain-frame nx ls (next_of d.list) (last_of d.list) t (used ++ h ∷ []) t
                (λ i q. next-evicted c t b inside i) (λ i q. last-evicted c t b inside i)
                (last-evicted c t b inside t) (rotate nx ls h t used ok.linked);
          distinct = λ i. omega (arith, same i, ok.distinct i);
          inside = λ i q. ok.inside i (omega (arith, same i));
          whole = omega (arith, ok.whole, length-append used (h ∷ []));
          oldest = Chain-first nx ls t used h ok.linked.2 ∙ sym (first-append t h used);
        },
      )
