-- ===== src/Container/LruCache/Answers.antt =====
-- container/circle_cache.h: which call of `put` is done and what a call of `get` answers, by the buckets that they
-- probe.
use selib.Prelude.{
  ℕ, ◌<◌, ◌≡◌, ◌≢◌, Bool, true, false, inl, inr, ◌⊎◌, Option, some, none, List, arith, Str,
}
use selib.Container.LruCache.{LruCache, quadratic_probing, rounds, put, get}
use selib.Container.LruCache.Writes.{at}
use selib.Container.LruCache.Valid.{IsCache, node, hash_key, hash_index}
use selib.Container.LruCache.Entries.{Adds, Renews, entries}
use selib.Container.LruCache.Outcome.{Framed, Framed-refl, Relinks}
use selib.Container.LruCache.Probe.{matches, accepts, scan_lem}
use selib.Container.LruCache.Refines.{
  probe_in, put_found, get_found, put_at_bucket, get_at_bucket, put_refused, get_missed,
}
use selib.Container.LruCache.RoundTrip.{placed}

module _ {ℓ} {V : Type ℓ} where
  -- The buckets that a call probes, of which there are `rounds`.
  abbrev pub probed : LruCache V → ℕ → ℕ → ℕ
  probed c k = quadratic_probing c.hash_size k

  -- No bucket that is probed passes a test, and the first one that does.
  abbrev pub Nowhere : LruCache V → ℕ → (ℕ → Bool) → Type 0
  Nowhere c k test = (m : ℕ) → m < rounds c → test (probed c k m) ≡ false

  abbrev pub FirstAt : LruCache V → ℕ → (ℕ → Bool) → ℕ → Type 0
  FirstAt c k test j =
      (j < rounds c)
      × (test (probed c k j) ≡ true)
      × ((m : ℕ) → m < j → test (probed c k m) ≡ false)

  -- `put`, by the caches before and after: it is refused where no bucket that is probed is empty or, if it
  -- overwrites, has both keys; else the first such bucket has the keys and leads to the value, each other bucket is as
  -- before or was emptied, and an entry is added where the bucket was empty and renewed where it was not.
  pub data PutCall (c : LruCache V) (used : List ℕ) (k : ℕ) (raw : Str) (v : Option V)
      (overwrite : Bool) : Bool → LruCache V → List ℕ → Type ℓ where
    not_done :
        Nowhere c k (accepts c k raw overwrite) → PutCall c used k raw v overwrite false c used
    stored_at :
        {c' : LruCache V} {used' : List ℕ} (j : ℕ)
        → FirstAt c k (accepts c k raw overwrite) j
        → ((hash_key c (probed c k j) ≡ 0)
            × Adds c.capacity (k, raw, v) (entries c used) (entries c' used'))
          ⊎ ((hash_key c (probed c k j) ≢ 0)
              × Renews
                  (k, raw, v)
                  (at c.list (hash_index c (probed c k j))).v
                  (entries c used)
                  (entries c' used'))
        → (hash_key c' (probed c k j) ≡ k)
          × ((node c' (probed c k j)).raw_key ≡ raw)
          × ((at c'.list (hash_index c' (probed c k j))).v ≡ v)
        → ((q : ℕ) → probed c k j ≢ q → (node c' q ≡ node c q) ⊎ (hash_key c' q ≡ 0))
        → PutCall c used k raw v overwrite true c' used'

  -- `get`: nothing is found where no bucket that is probed has both keys; else the value is that of the first
  -- such bucket, whose entry becomes the most recently used one, and all buckets stay as they are.
  pub data GetCall (c : LruCache V) (used : List ℕ) (k : ℕ) (raw : Str)
      : Option V → LruCache V → List ℕ → Type ℓ where
    not_found : Nowhere c k (matches c k raw) → GetCall c used k raw none c used
    found_at :
        {c' : LruCache V} {used' : List ℕ} (j : ℕ)
        → FirstAt c k (matches c k raw) j
        → Renews
            (k, raw, (at c.list (hash_index c (probed c k j))).v)
            (at c.list (hash_index c (probed c k j))).v
            (entries c used)
            (entries c' used')
        → Relinks c c'
        → GetCall c used k raw (at c.list (hash_index c (probed c k j))).v c' used'

  module _ {frees used : List ℕ} (c : LruCache V) (ok : IsCache c frees used) (k : ℕ) (raw : Str)
      (nk : k ≢ 0) where
    pub put_call_lem :
        (v : Option V) (overwrite : Bool)
        → (done : Bool) × (c' : LruCache V) × (frees' : List ℕ) × (used' : List ℕ) × (put c k v raw
              overwrite
            ≡ some (done, c'))
          × IsCache c' frees' used'
          × Framed c c'
          × PutCall c used k raw v overwrite done c' used'
    put_call_lem v overwrite =
        elim (scan_lem (probed c k) (accepts c k raw overwrite) (rounds c) 0) [
          | inl (e, f) ↦ (
            false,
            c,
            frees,
            used,
            put_refused c ok k raw v overwrite e,
            ok,
            Framed-refl c,
            not_done (λ m l. f m (omega arith) (omega (arith, l))),
          )
          | inr (j, l, u, e, h, f) ↦
              let (c', frees', used', g, o) =
                put_found c ok k raw v overwrite (probed c k j) (probe_in c ok k raw j) h nk in
              (
                true,
                c',
                frees',
                used',
                put_at_bucket c ok k raw v overwrite (probed c k j) e (probe_in c ok k raw j) g,
                o.ok,
                o.frame,
                stored_at j (omega (arith, u), h, λ m s. f m (omega arith) s) o.kind
                    (placed c ok k raw nk v c' (probed c k j) o) o.others,
              )
        ]

    pub get_call_lem :
        (v : Option V) × (c' : LruCache V) × (used' : List ℕ) × (get c k raw ≡ some (v, c'))
        × IsCache c' frees used'
        × Framed c c'
        × GetCall c used k raw v c' used'
    get_call_lem = elim (scan_lem (probed c k) (matches c k raw) (rounds c) 0) [
      | inl (e, f) ↦ (
        none,
        c,
        used,
        get_missed c ok k raw e,
        ok,
        Framed-refl c,
        not_found (λ m l. f m (omega arith) (omega (arith, l))),
      )
      | inr (j, l, u, e, h, f) ↦
          let (c', used', g, ok', fr, _, s, kept) =
            get_found c ok k raw (probed c k j) (probe_in c ok k raw j) h nk in
          (
            (at c.list (hash_index c (probed c k j))).v,
            c',
            used',
            get_at_bucket c ok k raw (probed c k j) e (probe_in c ok k raw j) g,
            ok',
            fr,
            found_at j (omega (arith, u), h, λ m s. f m (omega arith) s) s kept,
          )
    ]
