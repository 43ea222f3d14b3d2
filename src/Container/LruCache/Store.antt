-- ===== src/Container/LruCache/Store.antt =====
-- container/circle_cache.h: what the writes of `put` and of an eviction leave in the two arrays.
use selib.Prelude.{
  ℕ, ◌<◌, ◌≡◌, ◌≢◌, refl, ap, ◌∙◌, Option, none, some, ◌==◌, if◌then◌else◌, set, length, get_or-set,
  get_elem?-eq-get_or, eq→==, ne→==, Str,
}
use selib.Container.LruCache.{
  HashNode, ListNode, LruCache, no_hash_node, no_list_node, invalid_index, write_list, adjust,
  store, write_adjust,
}
use selib.Container.LruCache.Circle.{upd}
use selib.Container.LruCache.Writes.{at, next_of, last_of, read, ap-if, kept}
use selib.Container.LruCache.Valid.{node, hash_key, hash_index, list_key, list_bucket, entry}

module _ {ℓ} {V : Type ℓ} where
  -- A cache after the assignments of `put` to a bucket and a slot.
  abbrev pub stored : LruCache V → ℕ → ℕ → ℕ → Option V → Str → LruCache V
  stored c p s k v raw = record c {
    hash = set c.hash p (record { key = k; index = s; raw_key = raw });
    list = set c.list s (record (at c.list s) { key = k; v = v; bucket = p });
  }

  pub store-stored :
      (c : LruCache V) (p s k : ℕ) (v : Option V) (raw : Str)
      → s < length c.list
      → store c p s k v raw ≡ adjust (stored c p s k v raw) s
  unfolding store write_list
  store-stored c p s k v raw h = rw (read c.list s h)

  module _ (c : LruCache V) (p s k : ℕ) (v : Option V) (raw : Str) (hp : p < length c.hash)
      (hs : s < length c.list) where
    abbrev c1 : LruCache V
    c1 = stored c p s k v raw

    at_stored :
        (j : ℕ)
        → at c1.list j
          ≡ (if s == j then record (at c.list s) { key = k; v = v; bucket = p } else at c.list j)
    at_stored j = get_or-set c.list s j _ no_list_node hs

    node_stored :
        (q : ℕ)
        → node c1 q ≡ (if p == q then record { key = k; index = s; raw_key = raw } else node c q)
    node_stored q = get_or-set c.hash p q _ no_hash_node hp

    pub next-stored : (j : ℕ) → next_of c1.list j ≡ next_of c.list j
    next-stored j = kept ListNode.next (at c.list) s j _ _ (at_stored j) refl

    pub last-stored : (j : ℕ) → last_of c1.list j ≡ last_of c.list j
    last-stored j = kept ListNode.last (at c.list) s j _ _ (at_stored j) refl

    pub list_key-stored : (j : ℕ) → list_key c1 j ≡ upd (list_key c) s k j
    list_key-stored j = ap ListNode.key (at_stored j) ∙ ap-if ListNode.key (s == j) _ _

    pub list_bucket-stored : (j : ℕ) → list_bucket c1 j ≡ upd (list_bucket c) s p j
    list_bucket-stored j = ap ListNode.bucket (at_stored j) ∙ ap-if ListNode.bucket (s == j) _ _

    pub hash_key-stored : (q : ℕ) → hash_key c1 q ≡ upd (hash_key c) p k q
    hash_key-stored q = ap HashNode.key (node_stored q) ∙ ap-if HashNode.key (p == q) _ _

    pub hash_index-stored : (q : ℕ) → hash_index c1 q ≡ upd (hash_index c) p s q
    hash_index-stored q = ap HashNode.index (node_stored q) ∙ ap-if HashNode.index (p == q) _ _

    pub node-stored_other : (q : ℕ) → p ≢ q → node c1 q ≡ node c q
    node-stored_other q d =
        node_stored q
        ∙ ap (λ b. if b then record { key = k; index = s; raw_key = raw } else node c q)
            (ne→== p q d)

    -- The entry of the slot, and those of slots with other buckets.
    pub entry-stored : entry c1 s ≡ (k, raw, v)
    unfolding entry
    entry-stored =
        let n : ListNode V = record (at c.list s) { key = k; v = v; bucket = p } in
        let h : HashNode = record { key = k; index = s; raw_key = raw } in
        let a : at c1.list s ≡ n =
          at_stored s ∙ ap (λ b. if b then n else at c.list s) (eq→== s s refl) in
        let b : node c1 p ≡ h =
          node_stored p ∙ ap (λ b. if b then h else node c p) (eq→== p p refl) in
        ap (λ (x : ListNode V). (x.key, (node c1 x.bucket).raw_key, x.v)) a
        ∙ ap (λ (x : HashNode). (k, x.raw_key, v)) b

    pub entry-stored_other : (j : ℕ) → s ≢ j → p ≢ list_bucket c j → entry c1 j ≡ entry c j
    unfolding entry
    entry-stored_other j d b =
        let n : ListNode V = record (at c.list s) { key = k; v = v; bucket = p } in
        let h : HashNode = record { key = k; index = s; raw_key = raw } in
        let q : ℕ = list_bucket c j in
        let x : at c1.list j ≡ at c.list j =
          at_stored j ∙ ap (λ b. if b then n else at c.list j) (ne→== s j d) in
        let y : node c1 q ≡ node c q =
          node_stored q ∙ ap (λ b. if b then h else node c q) (ne→== p q b) in
        ap (λ (x : ListNode V). (x.key, (node c1 x.bucket).raw_key, x.v)) x
        ∙ ap (λ (x : HashNode). (list_key c j, x.raw_key, (at c.list j).v)) y

  -- A cache after the assignments of an eviction.
  abbrev pub evicted : LruCache V → ℕ → LruCache V
  evicted c t = record c {
    hash = set c.hash (list_bucket c t) no_hash_node;
    list = set c.list t (record (at c.list t) { key = 0; v = none });
    head = t;
    tail = next_of c.list t;
  }

  module _ (c : LruCache V) (t : ℕ) (hp : list_bucket c t < length c.hash)
      (hs : t < length c.list) where
    abbrev c2 : LruCache V
    c2 = evicted c t

    at_evicted :
        (j : ℕ)
        → at c2.list j
          ≡ (if t == j then record (at c.list t) { key = 0; v = none } else at c.list j)
    at_evicted j = get_or-set c.list t j _ no_list_node hs

    node_evicted : (q : ℕ) → node c2 q ≡ (if list_bucket c t == q then no_hash_node else node c q)
    node_evicted q = get_or-set c.hash (list_bucket c t) q _ no_hash_node hp

    pub next-evicted : (j : ℕ) → next_of c2.list j ≡ next_of c.list j
    next-evicted j = kept ListNode.next (at c.list) t j _ _ (at_evicted j) refl

    pub last-evicted : (j : ℕ) → last_of c2.list j ≡ last_of c.list j
    last-evicted j = kept ListNode.last (at c.list) t j _ _ (at_evicted j) refl

    pub list_key-evicted : (j : ℕ) → list_key c2 j ≡ upd (list_key c) t 0 j
    list_key-evicted j = ap ListNode.key (at_evicted j) ∙ ap-if ListNode.key (t == j) _ _

    pub list_bucket-evicted : (j : ℕ) → list_bucket c2 j ≡ list_bucket c j
    list_bucket-evicted j = kept ListNode.bucket (at c.list) t j _ _ (at_evicted j) refl

    pub hash_key-evicted : (q : ℕ) → hash_key c2 q ≡ upd (hash_key c) (list_bucket c t) 0 q
    hash_key-evicted q =
        ap HashNode.key (node_evicted q) ∙ ap-if HashNode.key (list_bucket c t == q) _ _

    pub hash_index-evicted :
        (q : ℕ) → hash_index c2 q ≡ upd (hash_index c) (list_bucket c t) invalid_index q
    hash_index-evicted q =
        ap HashNode.index (node_evicted q) ∙ ap-if HashNode.index (list_bucket c t == q) _ _

    pub node-evicted : (q : ℕ) → list_bucket c t ≢ q → node c2 q ≡ node c q
    node-evicted q d =
        node_evicted q
        ∙ ap (λ b. if b then no_hash_node else node c q) (ne→== (list_bucket c t) q d)

    pub entry-evicted : (j : ℕ) → t ≢ j → list_bucket c t ≢ list_bucket c j → entry c2 j ≡ entry c j
    unfolding entry
    entry-evicted j d b =
        let n : ListNode V = record (at c.list t) { key = 0; v = none } in
        let q : ℕ = list_bucket c j in
        let x : at c2.list j ≡ at c.list j =
          at_evicted j ∙ ap (λ b. if b then n else at c.list j) (ne→== t j d) in
        let y : node c2 q ≡ node c q =
          node_evicted q
          ∙ ap (λ b. if b then no_hash_node else node c q) (ne→== (list_bucket c t) q b) in
        ap (λ (x : ListNode V). (x.key, (node c2 x.bucket).raw_key, x.v)) x
        ∙ ap (λ (x : HashNode). (list_key c j, x.raw_key, (at c.list j).v)) y

  -- The two branches of `write_adjust`.
  pub write_adjust_full :
      (c : LruCache V)
      → c.head < length c.list
      → c.tail < length c.list
      → list_bucket c c.tail < length c.hash
      → c.tail ≡ next_of c.list c.head
      → write_adjust c ≡ some (evicted c c.tail)
  unfolding write_adjust write_list
  write_adjust_full c h t b e = rw (
    read c.list c.head h,
    read c.list c.tail t,
    eq→== c.tail _ e,
    get_elem?-eq-get_or c.hash (list_bucket c c.tail) no_hash_node b,
  )

  pub write_adjust_free :
      (c : LruCache V)
      → c.head < length c.list
      → c.tail < length c.list
      → c.tail ≢ next_of c.list c.head
      → write_adjust c ≡ some (record c { head = next_of c.list c.head })
  unfolding write_adjust
  write_adjust_free c h t e = rw (read c.list c.head h, read c.list c.tail t, ne→== c.tail _ e)
