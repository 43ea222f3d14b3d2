-- ===== src/Container/LruCache/Renew.antt =====
-- container/circle_cache.h: `put` into the bucket that has the key already.
use selib.Prelude.{
  count, count-append, inr, ℕ, ◌<◌, ◌≤◌, ◌≡◌, ◌≢◌, refl, sym, ap, ◌∙◌, Bool, true, false, inl,
  Option, some, List, [], ◌∷◌, ◌++◌, if◌then◌else◌, ◌>>=◌, arith, length, get_elem?, Str, eq→==,
  ne→==,
}
use mathlib.Core.Path.{subst}
use selib.Container.LruCache.{
  HashNode, ListNode, LruCache, invalid_index, put_at, has_slot, store, adjust, read_adjust,
}
use selib.Container.LruCache.Circle.{first, upd_self}
use selib.Container.LruCache.Index.{Indexed-renew, Indexed-same}
use selib.Container.LruCache.Writes.{at, read}
use selib.Container.LruCache.Valid.{
  IsCache, entry, node, hash_key, hash_index, list_key, list_bucket, read_adjust_at,
}
use selib.Container.LruCache.Store.{
  stored, store-stored, list_key-stored, list_bucket-stored, hash_key-stored, hash_index-stored,
  entry-stored, entry-stored_other, node-stored_other,
}
use selib.Container.LruCache.Shapes.{head_unused, Shape-stored}
use selib.Container.LruCache.Entries.{
  PutStep, renewed, entries, entries-same, entries-at, entries-moved, entry-data, apart_buckets,
}
use selib.Container.LruCache.Outcome.{Outcome}
use selib.Container.LruCache.Touch.{x_used, x_in, x_key, x_bucket, bucket_in, entry-x}

module _ {ℓ} {V : Type ℓ} where
  -- `put_at` by its test.
  put_at_lem :
      (c : LruCache V) (p k : ℕ) (v : Option V) (raw : Str) (same : Bool)
      → get_elem? c.hash p ≡ some (node c p)
      → has_slot c (node c p) k ≡ some same
      → put_at c p k v raw ≡ store c p (if same then hash_index c p else c.head) k v raw
  unfolding put_at
  put_at_lem c p k v raw same e h =
      ap (λ o. o >>= λ n. has_slot c n k >>= λ b. store c p (if b then n.index else c.head) k v raw)
        e
      ∙ ap (λ o. o >>= λ b. store c p (if b then hash_index c p else c.head) k v raw) h

  has_slot-found :
      (c : LruCache V) (h : HashNode) (k : ℕ)
      → h.index < length c.list
      → h.index ≢ invalid_index
      → list_key c h.index ≡ k
      → has_slot c h k ≡ some true
  unfolding has_slot
  has_slot-found c h k l n e =
      rw (ne→== h.index invalid_index n, read c.list h.index l) (ap some (eq→== _ k e))

  has_slot-vacant :
      (c : LruCache V) (h : HashNode) (k : ℕ)
      → h.index ≡ invalid_index
      → has_slot c h k ≡ some false
  unfolding has_slot
  has_slot-vacant c h k e = rw (eq→== h.index invalid_index e)

  pub put_at-slot :
      (c : LruCache V) (p k : ℕ) (v : Option V) (raw : Str)
      → get_elem? c.hash p ≡ some (node c p)
      → hash_index c p < length c.list
      → hash_index c p ≢ invalid_index
      → list_key c (hash_index c p) ≡ k
      → put_at c p k v raw ≡ store c p (hash_index c p) k v raw
  put_at-slot c p k v raw e h n g =
      put_at_lem c p k v raw true e (has_slot-found c (node c p) k h n g)

  pub put_at-vacant :
      (c : LruCache V) (p k : ℕ) (v : Option V) (raw : Str)
      → get_elem? c.hash p ≡ some (node c p)
      → hash_index c p ≡ invalid_index
      → put_at c p k v raw ≡ store c p c.head k v raw
  put_at-vacant c p k v raw e h = put_at_lem c p k v raw false e (has_slot-vacant c (node c p) k h)

  pub adjust_used : (c : LruCache V) (x : ℕ) → x ≢ c.head → adjust c x ≡ read_adjust c x
  unfolding adjust
  adjust_used c x n = rw (ne→== x c.head n)

module _ {ℓ} {V : Type ℓ} (c : LruCache V) (frees a : List ℕ) (x : ℕ) (b : List ℕ) (p : ℕ) where
  abbrev used : List ℕ
  used = a ++ x ∷ b

  abbrev moved : List ℕ
  moved = a ++ b ++ x ∷ []

  module _ (ok : IsCache c frees used) (lp : p < c.hash_size) (ix : hash_index c p ≡ x)
      (nz : hash_key c p ≢ 0) where
    p_in : p < length c.hash
    p_in = omega (arith, lp, ok.shape.hash_length)

    in_used : 1 ≤ count x used
    in_used = x_used c frees a x b p ok lp ix nz

    in_slots : x < length c.list
    in_slots = x_in c frees a x b p ok lp ix nz

    -- The slots in front and behind keep their entries.
    others :
        (k : ℕ) (v : Option V) (raw : Str) (l : List ℕ)
        → ((s : ℕ) → 1 ≤ count s l → (1 ≤ count s used) × (x ≢ s))
        → entries (stored c p x k v raw) l ≡ entries c l
    others k v raw l h = entries-same (stored c p x k v raw) c l λ s g.
        let (u, d) = h s g in
        entry-stored_other c p x k v raw p_in in_slots s d (λ e.
          apart_buckets c.hash_size (hash_key c) (hash_index c) (list_key c) (list_bucket c) used x
            s ok.indexed in_used u d (x_bucket c frees a x b p ok lp ix nz ∙ e))

    -- A slot in front of this one or behind it.
    is_other : (s : ℕ) → 1 ≤ count s (a ++ b) → (1 ≤ count s used) × (x ≢ s)
    is_other s h = (
      omega (arith, h, count-append s a b, count-append s a (x ∷ b)),
      λ e.
          let g : 1 ≤ count x (a ++ b) = subst (λ z. 1 ≤ count z (a ++ b)) (sym e) h in
          ground (
            arith,
            g,
            ok.shape.distinct x,
            count-append x frees used,
            count-append x a b,
            count-append x a (x ∷ b),
            eq→== x x refl,
          ),
    )

    pub put_at-renew :
        (k : ℕ) (v : Option V) (raw : Str)
        → hash_key c p ≡ k
        → (node c p).raw_key ≡ raw
        → (c' : LruCache V) × (put_at c p k v raw ≡ some c')
          × Outcome c used p k v raw c' frees moved
    put_at-renew k v raw ek er =
        let c1 : LruCache V = stored c p x k v raw in
        let ok1 : IsCache c1 frees used = record {
          shape = Shape-stored c p x k v raw p_in in_slots ok.shape;
          indexed =
              Indexed-same (hash_key-stored c p x k v raw p_in in_slots)
                (hash_index-stored c p x k v raw p_in in_slots)
                (list_key-stored c p x k v raw p_in in_slots)
                (list_bucket-stored c p x k v raw p_in in_slots) (λ s. refl)
                (Indexed-renew p x k ok.indexed ek ix lp (λ z. nz (ek ∙ z)));
        } in
        let (l, e, ok', d) = read_adjust_at c1 frees a x b ok1 in
        let c' : LruCache V = record c1 { list = l; tail = first c.head moved } in
        let key : list_key c (hash_index c p) ≡ k =
          ap (list_key c) ix ∙ x_key c frees a x b p ok lp ix nz ∙ ek in
        let code : put_at c p k v raw ≡ some c' =
          put_at-slot c p k v raw (bucket_in c frees a x b p ok lp ix nz)
            (omega (arith, ix, in_slots))
            (λ z. omega (arith, ix, in_slots, ok.shape.list_size, ok.shape.few)) key
          ∙ ap (λ i. store c p i k v raw) ix
          ∙ store-stored c p x k v raw in_slots
          ∙ adjust_used c1 x (λ z.
            let g : 1 ≤ count c.head used = subst (λ y. 1 ≤ count y used) z in_used in
            omega (arith, head_unused c ok.shape))
          ∙ e in
        let before : entries c used ≡ entries c a ++ (k, raw, (at c.list x).v) ∷ entries c b =
          entries-at c a x b
          ∙ ap (λ y. entries c a ++ y ∷ entries c b)
              (entry-x c frees a x b p ok lp ix nz k raw ek er) in
        let after : entries c' moved ≡ entries c a ++ entries c b ++ (k, raw, v) ∷ [] =
          entries-same c' c1 moved (λ s h. entry-data c1 l (first c.head moved) d s)
          ∙ entries-moved c1 a x b
          ∙ ap (λ y. y ++ entries c1 b ++ entry c1 x ∷ [])
              (others k v raw a (λ s h. is_other s (omega (arith, count-append s a b))))
          ∙ ap (λ y. entries c a ++ y ++ entry c1 x ∷ [])
              (others k v raw b (λ s h. is_other s (omega (arith, count-append s a b))))
          ∙ ap (λ y. entries c a ++ entries c b ++ y ∷ [])
              (entry-stored c p x k v raw p_in in_slots) in
        (
          c',
          code,
          record {
            ok = ok';
            step =
                subst (λ z. PutStep c.capacity (k, raw, v) z true (entries c' moved)) (sym before)
                  (subst
                    (PutStep c.capacity (k, raw, v)
                      (entries c a ++ (k, raw, (at c.list x).v) ∷ entries c b) true)
                    (sym after) (renewed (entries c a) (at c.list x).v (entries c b)));
            kind = inr (
              nz,
              (
                entries c a,
                entries c b,
                before ∙ ap (λ i. entries c a ++ (k, raw, (at c.list i).v) ∷ entries c b) (sym ix),
                after,
              ),
            );
            slot = x;
            slot_used = ground (arith, count-append x (a ++ b) (x ∷ []), eq→== x x refl);
            slot_entry =
                entry-data c1 l (first c.head moved) d x ∙ entry-stored c p x k v raw p_in in_slots;
            slot_bucket =
                ap ListNode.bucket (d x)
                ∙ list_bucket-stored c p x k v raw p_in in_slots x
                ∙ upd_self (list_bucket c) x p;
            others = λ q n. inl (node-stored_other c p x k v raw p_in in_slots q n);
            frame = record { same_capacity = refl; same_size = refl; same_probing = refl };
          },
        )
