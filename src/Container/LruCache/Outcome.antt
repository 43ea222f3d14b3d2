-- ===== src/Container/LruCache/Outcome.antt =====
-- container/circle_cache.h: what a `put` leaves.
use selib.Prelude.{count, ℕ, ◌≤◌, ◌≡◌, ◌≢◌, refl, true, Option, List, Str, ◌⊎◌}
use selib.Container.LruCache.{LruCache}
use selib.Container.LruCache.Valid.{IsCache, node, hash_key, hash_index, list_bucket, entry}
use selib.Container.LruCache.Writes.{at, data_of}
use selib.Container.LruCache.Entries.{PutStep, Adds, Renews, entries}

module _ {ℓ} {V : Type ℓ} where
  -- The members that no call changes.
  pub record Framed (c c' : LruCache V) : Type 0 where
    pub same_capacity : c'.capacity ≡ c.capacity
    pub same_size : c'.hash_size ≡ c.hash_size
    pub same_probing : c'.max_probing ≡ c.max_probing

  pub Framed-refl : (c : LruCache V) → Framed c c
  Framed-refl c = record { same_capacity = refl; same_size = refl; same_probing = refl }

  -- The buckets and the members of the slots but the links are as before.
  abbrev pub Relinks : LruCache V → LruCache V → Type ℓ
  Relinks c c' = (c'.hash ≡ c.hash) × ((s : ℕ) → data_of c'.list s ≡ data_of c.list s)

  -- A well-formed cache, by a step on the entries, which adds one where the bucket was empty; one slot has the new entry and the bucket of it; the other
  -- buckets are as before or empty.
  pub record Outcome (c : LruCache V) (used : List ℕ) (p k : ℕ) (v : Option V) (raw : Str)
      (c' : LruCache V) (frees' used' : List ℕ) : Type ℓ where
    pub ok : IsCache c' frees' used'
    pub step : PutStep c.capacity (k, raw, v) (entries c used) true (entries c' used')
    pub kind :
        ((hash_key c p ≡ 0) × Adds c.capacity (k, raw, v) (entries c used) (entries c' used'))
        ⊎ ((hash_key c p ≢ 0)
            × Renews (k, raw, v) (at c.list (hash_index c p)).v (entries c used) (entries c' used'))
    pub slot : ℕ
    pub slot_used : 1 ≤ count slot used'
    pub slot_entry : entry c' slot ≡ (k, raw, v)
    pub slot_bucket : list_bucket c' slot ≡ p
    pub others : (q : ℕ) → p ≢ q → (node c' q ≡ node c q) ⊎ (hash_key c' q ≡ 0)
    pub frame : Framed c c'
