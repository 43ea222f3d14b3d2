-- ===== src/Container/LruCache/Refines.antt =====
-- container/circle_cache.h: `get` and `put` are steps on the entries, from the least to the most recently used.
use selib.Prelude.{
  ℕ, ◌<◌, ◌≡◌, ◌≢◌, refl, sym, ap, ◌∙◌, Bool, true, false, ◌&&◌, ◌||◌, inl, inr, Option, some, none,
  List, [], ◌∷◌, ◌++◌, ◌==◌, if◌then◌else◌, ◌>>=◌, arith, Str, eq→==, Bool-cases, ==_iff, and_parts,
}
use mathlib.Core.Path.{subst}
use selib.Container.LruCache.{
  LruCache, invalid_index, quadratic_probing, rounds, is_missing, put_at, put, get_at, get,
}
use selib.Container.LruCache.Writes.{at}
use selib.Container.LruCache.Valid.{IsCache, hash_key, hash_index}
use selib.Container.LruCache.Entries.{Renews, GetStep, miss, PutStep, refused, entries, split_at}
use selib.Container.LruCache.Outcome.{Framed, Framed-refl, Relinks, Outcome}
use selib.Container.LruCache.Touch.{get_at_lem}
use selib.Container.LruCache.Renew.{put_at-renew}
use selib.Container.LruCache.Fresh.{put_at-fresh}
use selib.Container.LruCache.Probe.{
  matches, accepts, matches-parts, scan, scan_lem, put_probe-scan, get_probe-scan,
  quadratic_probing_below,
}

module _ {ℓ} {V : Type ℓ} {frees used : List ℕ} (c : LruCache V) (ok : IsCache c frees used) (k : ℕ)
    (raw : Str) where
  abbrev probe : ℕ → ℕ
  probe = quadratic_probing c.hash_size k

  pub probe_in : (i : ℕ) → probe i < c.hash_size
  probe_in i = quadratic_probing_below c.hash_size ok.shape.power.0 k i ok.shape.power.1

  is_missing-invalid : is_missing c invalid_index ≡ true
  unfolding is_missing
  is_missing-invalid = rw (eq→== invalid_index invalid_index refl) refl

  is_missing-found : (p : ℕ) → p < c.hash_size → is_missing c p ≡ false
  unfolding is_missing
  is_missing-found p h = ground (arith, h, ok.shape.small)

  -- The slot of a bucket with a key stands somewhere among those in use.
  slot :
      (p : ℕ)
      → p < c.hash_size
      → hash_key c p ≢ 0
      → (a : List ℕ) × (b : List ℕ) × (used ≡ a ++ hash_index c p ∷ b)
  slot p l n = split_at (hash_index c p) used (ok.indexed.filled p l n).0

  pub get_found :
      (p : ℕ)
      → p < c.hash_size
      → matches c k raw p ≡ true
      → k ≢ 0
      → (c' : LruCache V) × (used' : List ℕ) × (get_at c p
          ≡ some ((at c.list (hash_index c p)).v, c'))
        × IsCache c' frees used'
        × Framed c c'
        × GetStep k raw (entries c used) (at c.list (hash_index c p)).v (entries c' used')
        × Renews
            (k, raw, (at c.list (hash_index c p)).v)
            (at c.list (hash_index c p)).v
            (entries c used)
            (entries c' used')
        × Relinks c c'
  get_found p l h nk =
      let (ek, er) = matches-parts c k raw p h in
      let nz : hash_key c p ≢ 0 = λ z. nk (sym ek ∙ z) in
      let (a, b, e) = slot p l nz in
      let x : ℕ = hash_index c p in
      let (c', g, ok', fr, s, r, kept) =
        get_at_lem c frees a x b p (subst (IsCache c frees) e ok) l refl nz k raw ek er in
      (
        c',
        a ++ b ++ x ∷ [],
        g,
        ok',
        fr,
        subst (λ u. GetStep k raw (entries c u) (at c.list x).v (entries c' (a ++ b ++ x ∷ [])))
            (sym e) s,
        subst
            (λ u.
              Renews (k, raw, (at c.list x).v) (at c.list x).v (entries c u)
                (entries c' (a ++ b ++ x ∷ [])))
            (sym e) r,
        kept,
      )

  get_by :
      (r : ℕ)
      → scan probe (matches c k raw) (rounds c) 0 ≡ r
      → get c k raw ≡ (if is_missing c r then some (none, c) else get_at c r)
  unfolding get
  get_by r e = rw (get_probe-scan c ok k raw (rounds c) 0, e) refl

  pub get_at_bucket :
      {v : Option V} {c' : LruCache V} (r : ℕ)
      → scan probe (matches c k raw) (rounds c) 0 ≡ r
      → r < c.hash_size
      → get_at c r ≡ some (v, c')
      → get c k raw ≡ some (v, c')
  get_at_bucket r e l g =
      get_by r e ∙ ap (λ t. if t then some (none, c) else get_at c r) (is_missing-found r l) ∙ g

  pub get_missed :
      scan probe (matches c k raw) (rounds c) 0 ≡ invalid_index → get c k raw ≡ some (none, c)
  get_missed e =
      get_by invalid_index e
      ∙ ap (λ t. if t then some (none, c) else get_at c invalid_index) is_missing-invalid

  -- `get` of a key other than 0 in a well-formed cache makes no access out of an array and leaves the cache
  -- well-formed; either it finds nothing and the entries are as before, or it returns the value of an entry
  -- with both keys, which is the most recently used one then, the others in their order.
  pub get_refines :
      k ≢ 0
      → (v : Option V) × (c' : LruCache V) × (used' : List ℕ) × (get c k raw ≡ some (v, c'))
        × IsCache c' frees used'
        × Framed c c'
        × GetStep k raw (entries c used) v (entries c' used')
  get_refines nk = elim (scan_lem probe (matches c k raw) (rounds c) 0) [
    | inl (e, f) ↦ (none, c, used, get_missed e, ok, Framed-refl c, miss)
    | inr (j, l, u, e, h, f) ↦
        let (c', used', g, ok', fr, s, _, _) = get_found (probe j) (probe_in j) h nk in
        (
          (at c.list (hash_index c (probe j))).v,
          c',
          used',
          get_at_bucket (probe j) e (probe_in j) g,
          ok',
          fr,
          s,
        )
  ]

  pub put_found :
      (v : Option V) (overwrite : Bool) (p : ℕ)
      → p < c.hash_size
      → accepts c k raw overwrite p ≡ true
      → k ≢ 0
      → (c' : LruCache V) × (frees' : List ℕ) × (used' : List ℕ) × (put_at c p k v raw ≡ some c')
        × Outcome c used p k v raw c' frees' used'
  put_found v overwrite p l h nk = elim (Bool-cases (hash_key c p == 0)) [
    | inl z ↦ put_at-fresh c p k v raw frees used ok l ((==_iff (hash_key c p) 0).0 z) nk
    | inr z ↦
        let m : (matches c k raw p && overwrite) ≡ true =
          ap (λ t. t || (matches c k raw p && overwrite)) (sym z) ∙ h in
        let (ek, er) = matches-parts c k raw p (and_parts (matches c k raw p) overwrite m).0 in
        let nz : hash_key c p ≢ 0 = λ y. nk (sym ek ∙ y) in
        let (a, b, e) = slot p l nz in
        let x : ℕ = hash_index c p in
        let (c', g, o) =
          put_at-renew c frees a x b p (subst (IsCache c frees) e ok) l refl nz k v raw ek er in
        (
          c',
          frees,
          a ++ b ++ x ∷ [],
          g,
          subst (λ u. Outcome c u p k v raw c' frees (a ++ b ++ x ∷ [])) (sym e) o,
        )
  ]

  put_by :
      (v : Option V) (overwrite : Bool) (r : ℕ)
      → scan probe (accepts c k raw overwrite) (rounds c) 0 ≡ r
      → put c k v raw overwrite
        ≡ (if is_missing c r then some (false, c) else put_at c r k v raw >>= λ c'. some (true, c'))
  unfolding put
  put_by v overwrite r e = rw (put_probe-scan c ok k raw overwrite (rounds c) 0, e) refl

  pub put_at_bucket :
      {c' : LruCache V} (v : Option V) (overwrite : Bool) (r : ℕ)
      → scan probe (accepts c k raw overwrite) (rounds c) 0 ≡ r
      → r < c.hash_size
      → put_at c r k v raw ≡ some c'
      → put c k v raw overwrite ≡ some (true, c')
  put_at_bucket v overwrite r e l g =
      put_by v overwrite r e
      ∙ ap (λ t. if t then some (false, c) else put_at c r k v raw >>= λ c'. some (true, c'))
          (is_missing-found r l)
      ∙ ap (λ o. o >>= λ c'. some (true, c')) g

  pub put_refused :
      (v : Option V) (overwrite : Bool)
      → scan probe (accepts c k raw overwrite) (rounds c) 0 ≡ invalid_index
      → put c k v raw overwrite ≡ some (false, c)
  put_refused v overwrite e =
      put_by v overwrite invalid_index e
      ∙ ap
          (λ t.
            if t then some (false, c) else put_at c invalid_index k v raw >>= λ c'. some (true, c'))
          is_missing-invalid

  -- `put` of a key other than 0 into a well-formed cache makes no access out of an array and leaves the cache
  -- well-formed; either it is refused and the entries are as before, or an entry with both keys is replaced
  -- by the new one, or the new one is added where there are at least two slots more than entries, or it takes
  -- the place of the least recently used entry where there is one slot more; the new entry is the most
  -- recently used one, and the others keep their order.
  pub put_refines :
      (v : Option V) (overwrite : Bool)
      → k ≢ 0
      → (done : Bool) × (c' : LruCache V) × (frees' : List ℕ) × (used' : List ℕ) × (put c k v raw
            overwrite
          ≡ some (done, c'))
        × IsCache c' frees' used'
        × Framed c c'
        × PutStep c.capacity (k, raw, v) (entries c used) done (entries c' used')
  put_refines v overwrite nk = elim (scan_lem probe (accepts c k raw overwrite) (rounds c) 0) [
    | inl (e, f) ↦ (false, c, frees, used, put_refused v overwrite e, ok, Framed-refl c, refused)
    | inr (j, l, u, e, h, f) ↦
        let (c', frees', used', g, o) = put_found v overwrite (probe j) (probe_in j) h nk in
        (
          true,
          c',
          frees',
          used',
          put_at_bucket v overwrite (probe j) e (probe_in j) g,
          o.ok,
          o.frame,
          o.step,
        )
  ]
