-- ===== src/Container/LruCache/Touch.antt =====
-- container/circle_cache.h: `get` of a bucket that was found, and `put` into the bucket of its key.
use selib.Prelude.{
  count, count-append, ℕ, ◌<◌, ◌≤◌, ◌≡◌, ◌≢◌, refl, sym, ap, ◌∙◌, some, List, [], ◌∷◌, ◌++◌, arith,
  length, get_elem?, get_elem?-eq-get_or, Str, eq→==,
}
use mathlib.Core.Path.{subst}
use selib.Container.LruCache.{LruCache, no_hash_node, get_at}
use selib.Container.LruCache.Circle.{first}
use selib.Container.LruCache.Writes.{at, read}
use selib.Container.LruCache.Valid.{
  IsCache, entry, node, hash_key, hash_index, list_key, list_bucket, read_adjust_at,
}
use selib.Container.LruCache.Shapes.{used_in}
use selib.Container.LruCache.Entries.{
  GetStep, hit, Renews, entries, entries-same, entries-at, entries-moved, entry-data,
}
use selib.Container.LruCache.Outcome.{Framed, Relinks}

module _ {ℓ} {V : Type ℓ} (c : LruCache V) (frees a : List ℕ) (x : ℕ) (b : List ℕ) (p : ℕ) where
  abbrev used : List ℕ
  used = a ++ x ∷ b

  abbrev moved : List ℕ
  moved = a ++ b ++ x ∷ []

  module _ (ok : IsCache c frees used) (lp : p < c.hash_size) (ix : hash_index c p ≡ x)
      (nz : hash_key c p ≢ 0) where
    pub x_used : 1 ≤ count x used
    x_used = ground (arith, count-append x a (x ∷ b), eq→== x x refl)

    pub bucket_in : get_elem? c.hash p ≡ some (node c p)
    bucket_in = get_elem?-eq-get_or c.hash p no_hash_node (omega (arith, ok.shape.hash_length))

    pub x_in : x < length c.list
    x_in = used_in c x ok.shape x_used

    pub x_bucket : list_bucket c x ≡ p
    x_bucket = ap (list_bucket c) (sym ix) ∙ (ok.indexed.filled p lp nz).1

    pub x_key : list_key c x ≡ hash_key c p
    x_key = ap (list_key c) (sym ix) ∙ (ok.indexed.filled p lp nz).2

    pub entry-x :
        (k : ℕ) (raw : Str)
        → hash_key c p ≡ k
        → (node c p).raw_key ≡ raw
        → entry c x ≡ (k, raw, (at c.list x).v)
    unfolding entry
    entry-x k raw ek er =
        ap (λ i. (i, (node c (list_bucket c x)).raw_key, (at c.list x).v)) (x_key ∙ ek)
        ∙ ap (λ q. (k, (node c q).raw_key, (at c.list x).v)) x_bucket
        ∙ ap (λ r. (k, r, (at c.list x).v)) er

    pub get_at_lem :
        (k : ℕ) (raw : Str)
        → hash_key c p ≡ k
        → (node c p).raw_key ≡ raw
        → (c' : LruCache V) × (get_at c p ≡ some ((at c.list x).v, c'))
          × IsCache c' frees moved
          × Framed c c'
          × GetStep k raw (entries c used) (at c.list x).v (entries c' moved)
          × Renews (k, raw, (at c.list x).v) (at c.list x).v (entries c used) (entries c' moved)
          × Relinks c c'
    unfolding get_at
    get_at_lem k raw ek er =
        let (l, e, ok', d) = read_adjust_at c frees a x b ok in
        let v = (at c.list x).v in
        let c' : LruCache V = record c { list = l; tail = first c.head moved } in
        let before : entries c used ≡ entries c a ++ (k, raw, v) ∷ entries c b =
          entries-at c a x b ∙ ap (λ y. entries c a ++ y ∷ entries c b) (entry-x k raw ek er) in
        let after : entries c' moved ≡ entries c a ++ entries c b ++ (k, raw, v) ∷ [] =
          entries-same c' c moved (λ s h. entry-data c l (first c.head moved) d s)
          ∙ entries-moved c a x b
          ∙ ap (λ y. entries c a ++ entries c b ++ y ∷ []) (entry-x k raw ek er) in
        (
          c',
          rw (bucket_in, ix, e, read c.list x x_in),
          ok',
          record { same_capacity = refl; same_size = refl; same_probing = refl },
          subst (λ z. GetStep k raw z v (entries c' moved)) (sym before)
              (subst (GetStep k raw (entries c a ++ (k, raw, v) ∷ entries c b) v) (sym after)
                (hit (entries c a) v (entries c b))),
          (entries c a, entries c b, before, after),
          (refl, d),
        )
