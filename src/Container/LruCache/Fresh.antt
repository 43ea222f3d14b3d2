-- ===== src/Container/LruCache/Fresh.antt =====
-- container/circle_cache.h: `put` into an empty bucket, which takes the slot of the head.
use selib.Prelude.{
  count, count-append, ℕ, ◌<◌, ◌≤◌, ◌≡◌, ◌≢◌, refl, sym, ap, ◌∙◌, true, inl, inr, ℕ_discrete,
  Option, some, List, [], ◌∷◌, ◌++◌, arith, length, length-append, length-set, get_elem?-eq-get_or,
  Str, eq→==,
}
use mathlib.Core.Path.{subst}
use mathlib.Core.List.{tail-eq_of_cons-eq}
use selib.Container.LruCache.{LruCache, no_hash_node, put_at, adjust, write_adjust}
use selib.Container.LruCache.Circle.{first, IsDistinct, first_counted, upd_self, upd_hit}
use selib.Container.LruCache.Index.{Indexed, Indexed-add, Indexed-drop, Indexed-same}
use selib.Container.LruCache.Valid.{
  IsCache, Shape, entry, hash_key, hash_index, list_key, list_bucket,
}
use selib.Container.LruCache.Store.{
  stored, store-stored, list_key-stored, list_bucket-stored, hash_key-stored, hash_index-stored,
  entry-stored, entry-stored_other, evicted, write_adjust_full, write_adjust_free, list_key-evicted,
  list_bucket-evicted, hash_key-evicted, hash_index-evicted, entry-evicted, node-stored_other,
  node-evicted,
}
use selib.Container.LruCache.Shapes.{
  head_in, used_in, head_unused, Shape-stored, Shape-taken, Shape-evicted,
}
use selib.Container.LruCache.Entries.{
  PutStep, added, replaced, entries, entries-same, entries-last, length-entries, apart_buckets,
}
use selib.Container.LruCache.Outcome.{Outcome}
use selib.Container.LruCache.Renew.{put_at-vacant}

module _ {ℓ} {V : Type ℓ} (c : LruCache V) (p k : ℕ) (v : Option V) (raw : Str) where
  abbrev c1 : LruCache V
  c1 = stored c p c.head k v raw

  adjust_head : adjust c1 c.head ≡ write_adjust c1
  unfolding adjust
  adjust_head = rw (eq→== c.head c.head refl)

  module _ (frees used : List ℕ) (ok : IsCache c frees used) (lp : p < c.hash_size)
      (ez : hash_key c p ≡ 0) (nk : k ≢ 0) where
    p_in : p < length c.hash
    p_in = omega (arith, lp, ok.shape.hash_length)

    h_in : c.head < length c.list
    h_in = head_in c ok.shape

    code : put_at c p k v raw ≡ write_adjust c1
    code =
        put_at-vacant c p k v raw (get_elem?-eq-get_or c.hash p no_hash_node p_in)
          (ok.indexed.vacant p lp ez)
        ∙ store-stored c p c.head k v raw h_in
        ∙ adjust_head

    shape1 : Shape c1 frees used
    shape1 = Shape-stored c p c.head k v raw p_in h_in ok.shape

    indexed1 :
        Indexed c.hash_size
          (hash_key c1)
          (hash_index c1)
          (list_key c1)
          (list_bucket c1)
          (used ++ c.head ∷ [])
    indexed1 =
        Indexed-same (hash_key-stored c p c.head k v raw p_in h_in)
          (hash_index-stored c p c.head k v raw p_in h_in)
          (list_key-stored c p c.head k v raw p_in h_in)
          (list_bucket-stored c p c.head k v raw p_in h_in) (λ s. refl)
          (Indexed-add p c.head k ok.indexed lp ez nk (head_unused c ok.shape))

    entries1 : entries c1 (used ++ c.head ∷ []) ≡ entries c used ++ (k, raw, v) ∷ []
    entries1 =
        entries-last c1 used c.head
        ∙ ap (λ l. l ++ entry c1 c.head ∷ [])
            (entries-same c1 c used λ s g.
              entry-stored_other c p c.head k v raw p_in h_in s
                (λ e.
                  omega (arith, head_unused c ok.shape, subst (λ z. 1 ≤ count z used) (sym e) g))
                (λ e. (ok.indexed.backed s g).1 (ap (hash_key c) (sym e) ∙ ez)))
        ∙ ap (λ y. entries c used ++ y ∷ []) (entry-stored c p c.head k v raw p_in h_in)

    bucket1 : list_bucket c1 c.head ≡ p
    bucket1 =
        list_bucket-stored c p c.head k v raw p_in h_in c.head ∙ upd_self (list_bucket c) c.head p

    tail_in : c.tail < length c.list
    tail_in =
        let t : ℕ = first c.head used in
        let inner : t < c.capacity =
          ok.shape.inside t (omega (arith, first_counted c.head used, count-append t frees used)) in
        omega (arith, ok.shape.list_size, inner, ok.shape.oldest)

  last_counted : (used : List ℕ) → 1 ≤ count c.head (used ++ c.head ∷ [])
  last_counted used =
      ground (arith, count-append c.head used (c.head ∷ []), eq→== c.head c.head refl)

  -- A free slot follows.
  put_at-added :
      (f : ℕ) (fs used : List ℕ)
      → IsCache c (f ∷ fs) used
      → p < c.hash_size
      → hash_key c p ≡ 0
      → k ≢ 0
      → (c' : LruCache V) × (put_at c p k v raw ≡ some c')
        × Outcome c used p k v raw c' fs (used ++ c.head ∷ [])
  unfolding entry
  put_at-added f fs used ok lp ez nk =
      let frees : List ℕ = f ∷ fs in
      let (en, et, shape) = Shape-taken c1 f (shape1 frees used ok lp ez nk) in
      let c' : LruCache V = record c1 { head = f } in
      let size1 : length c1.list ≡ length c.list = length-set c.list c.head _ in
      let done : write_adjust c1 ≡ some c' =
        write_adjust_free c1 (omega (arith, size1, h_in frees used ok lp ez nk))
          (omega (arith, size1, tail_in frees used ok lp ez nk)) (λ z. et (z ∙ en))
        ∙ ap (λ i. some (record c1 { head = i })) en in
      let after : entries c' (used ++ c.head ∷ []) ≡ entries c used ++ (k, raw, v) ∷ [] =
        entries-same c' c1 (used ++ c.head ∷ []) (λ s h. refl) ∙ entries1 frees used ok lp ez nk in
      (
        c',
        code frees used ok lp ez nk ∙ done,
        record {
          ok = record { shape = shape; indexed = indexed1 frees used ok lp ez nk };
          step =
              subst (PutStep c.capacity (k, raw, v) (entries c used) true) (sym after) (
                added
                  (omega (arith, length-entries c used, ok.shape.whole, length-append fs used)));
          kind = inl (
            ez,
            inl (
              omega (arith, length-entries c used, ok.shape.whole, length-append fs used),
              after,
            ),
          );
          slot = c.head;
          slot_used = last_counted used;
          slot_entry =
              entry-stored c p c.head k v raw (p_in frees used ok lp ez nk)
                (h_in frees used ok lp ez nk);
          slot_bucket = bucket1 frees used ok lp ez nk;
          others = λ q n. inl (
              node-stored_other c p c.head k v raw (p_in frees used ok lp ez nk)
                (h_in frees used ok lp ez nk) q n);
          frame = record { same_capacity = refl; same_size = refl; same_probing = refl };
        },
      )

  -- No slot is free.
  put_at-replaced :
      (t : ℕ) (used : List ℕ)
      → IsCache c [] (t ∷ used)
      → p < c.hash_size
      → hash_key c p ≡ 0
      → k ≢ 0
      → (c' : LruCache V) × (put_at c p k v raw ≡ some c')
        × Outcome c (t ∷ used) p k v raw c' [] (used ++ c.head ∷ [])
  unfolding entries
  put_at-replaced t used ok lp ez nk =
      let x = indexed1 [] (t ∷ used) ok lp ez nk in
      let s1 = shape1 [] (t ∷ used) ok lp ez nk in
      let now : List ℕ = used ++ c.head ∷ [] in
      let one : 1 ≤ count t (t ∷ used) = ground (arith, eq→== t t refl) in
      let b_in : list_bucket c1 t < length c1.hash = omega (
        arith,
        (x.backed t (omega (arith, one, count-append t (t ∷ used) (c.head ∷ [])))).0,
        s1.hash_length,
      ) in
      let t_in : t < length c1.list = used_in c1 t s1 one in
      let (en, shape) = Shape-evicted c1 t s1 b_in in
      let c' : LruCache V = evicted c1 t in
      let distinct : IsDistinct (t ∷ now) =
        λ i. omega (arith, ok.shape.distinct i, count-append i used (c.head ∷ [])) in
      let done : write_adjust c1 ≡ some c' =
        write_adjust_full c1 (head_in c1 s1) (rw s1.oldest t_in) (rw s1.oldest b_in)
          (s1.oldest ∙ sym en)
        ∙ ap (λ i. some (evicted c1 i)) s1.oldest in
      let indexed : Indexed c.hash_size (hash_key c') (hash_index c') (list_key c') (list_bucket c')
          now =
        Indexed-same (hash_key-evicted c1 t b_in t_in) (hash_index-evicted c1 t b_in t_in)
          (list_key-evicted c1 t b_in t_in) (list_bucket-evicted c1 t b_in t_in) (λ s. refl)
          (Indexed-drop t now distinct x) in
      let same_entry : (s : ℕ) → 1 ≤ count s now → entry c' s ≡ entry c1 s = λ s g.
        let d : t ≢ s =
          λ e. ground (arith, distinct t, eq→== t t refl, subst (λ z. 1 ≤ count z now) (sym e) g) in
        entry-evicted c1 t b_in t_in s d (
          apart_buckets c.hash_size (hash_key c1) (hash_index c1) (list_key c1) (list_bucket c1)
            (t ∷ now) t s x (ground (arith, eq→== t t refl)) (omega (arith, g)) d) in
      let kept : entries c' now ≡ entries c1 now = entries-same c' c1 now same_entry in
      let all : entry c1 t ∷ entries c1 now ≡ entry c t ∷ (entries c used ++ (k, raw, v) ∷ []) =
        entries1 [] (t ∷ used) ok lp ez nk in
      let after : entries c' now ≡ entries c used ++ (k, raw, v) ∷ [] =
        kept ∙ tail-eq_of_cons-eq all in
      (
        c',
        code [] (t ∷ used) ok lp ez nk ∙ done,
        record {
          ok = record { shape = shape; indexed = indexed };
          step = subst (PutStep c.capacity (k, raw, v) (entries c (t ∷ used)) true) (sym after) (
              replaced (entry c t) (entries c used)
                (omega (arith, length-entries c used, ok.shape.whole)));
          kind = inl (
            ez,
            inr (
              entry c t,
              entries c used,
              refl,
              omega (arith, length-entries c used, ok.shape.whole),
              after,
            ),
          );
          slot = c.head;
          slot_used = last_counted used;
          slot_entry =
              same_entry c.head (last_counted used)
              ∙ entry-stored c p c.head k v raw (p_in [] (t ∷ used) ok lp ez nk)
                  (h_in [] (t ∷ used) ok lp ez nk);
          slot_bucket =
              list_bucket-evicted c1 t b_in t_in c.head ∙ bucket1 [] (t ∷ used) ok lp ez nk;
          others = λ q n. elim (ℕ_discrete (list_bucket c1 t) q) [
            | yes g ↦
                inr (
                  hash_key-evicted c1 t b_in t_in q
                  ∙ upd_hit (hash_key c1) (list_bucket c1 t) 0 q g)
            | no g ↦ inl (
                node-evicted c1 t b_in t_in q g
                ∙ node-stored_other c p c.head k v raw (p_in [] (t ∷ used) ok lp ez nk)
                    (h_in [] (t ∷ used) ok lp ez nk) q n)
          ];
          frame = record { same_capacity = refl; same_size = refl; same_probing = refl };
        },
      )

  pub put_at-fresh :
      (frees used : List ℕ)
      → IsCache c frees used
      → p < c.hash_size
      → hash_key c p ≡ 0
      → k ≢ 0
      → (c' : LruCache V) × (frees' : List ℕ) × (used' : List ℕ) × (put_at c p k v raw ≡ some c')
        × Outcome c used p k v raw c' frees' used'
  put_at-fresh [] [] ok lp ez nk = absurd (omega (arith, ok.shape.whole, ok.shape.many))
  put_at-fresh [] (t ∷ used) ok lp ez nk =
      let (c', e, o) = put_at-replaced t used ok lp ez nk in (c', [], used ++ c.head ∷ [], e, o)
  put_at-fresh (f ∷ fs) used ok lp ez nk =
      let (c', e, o) = put_at-added f fs used ok lp ez nk in (c', fs, used ++ c.head ∷ [], e, o)
