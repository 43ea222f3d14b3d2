-- ===== src/Container/LruCache/RoundTrip.antt =====
-- container/circle_cache.h: `get` after `put`.
use selib.Prelude.{
  zero, suc, ℕ_discrete, ℕ, ◌<◌, ◌≤◌, ◌≡◌, ◌≢◌, refl, sym, ap, ◌∙◌, Bool, true, false, ◌&&◌, ◌||◌,
  inl, inr, Option, some, List, ◌==◌, arith, Str, eq_str, ne→==, if◌then◌else◌, ltb,
}
use mathlib.Core.Path.{subst}
use mathlib.Core.Bool.{true≢false}
use mathlib.Core.Option.{some-injective}
use selib.Container.LruCache.{LruCache, quadratic_probing, rounds, put, get}
use selib.Container.LruCache.Writes.{at}
use selib.Container.LruCache.Valid.{IsCache, node, hash_key, hash_index, list_key, entry}
use selib.Container.LruCache.Outcome.{Outcome}
use selib.Container.LruCache.Refines.{
  probe_in, put_found, get_found, put_at_bucket, get_at_bucket, put_refused,
}
use selib.Container.LruCache.Probe.{matches, accepts, matches-intro, scan, scan_lem, scan_at}

matches_false : (z m : Bool) → (z || (m && true)) ≡ false → m ≡ false
matches_false z m h = ground (arith, h)

or_right : (a b : Bool) → b ≡ true → (a || b) ≡ true
or_right a b h = ground (arith, h)

-- Whether one of the first probes is a hit.
abbrev pub any_hit : (ℕ → ℕ) → (ℕ → Bool) → ℕ → Bool
any_hit probe test zero = false
any_hit probe test (suc n) = test (probe n) || any_hit probe test n

any_hit-false :
    (probe : ℕ → ℕ) (test : ℕ → Bool) (n : ℕ)
    → ((m : ℕ) → m < n → test (probe m) ≡ false)
    → any_hit probe test n ≡ false
any_hit-false probe test zero f = refl
any_hit-false probe test (suc n) f =
    ap (λ b. b || any_hit probe test n) (f n (omega arith))
    ∙ any_hit-false probe test n (λ m l. f m (omega (arith, l)))

any_hit-true :
    (probe : ℕ → ℕ) (test : ℕ → Bool) (n j : ℕ)
    → j < n
    → test (probe j) ≡ true
    → any_hit probe test n ≡ true
any_hit-true probe test zero j l h = absurd (omega (arith, l))
any_hit-true probe test (suc n) j l h = elim (ℕ_discrete j n) [
  | yes e ↦ ap (λ b. b || any_hit probe test n) (ap (λ i. test (probe i)) (sym e) ∙ h)
  | no d ↦
      or_right (test (probe n)) (any_hit probe test n)
        (any_hit-true probe test n j (ground (arith, l)) h)
]

module _ {ℓ} {V : Type ℓ} {frees used : List ℕ} (c : LruCache V) (ok : IsCache c frees used) (k : ℕ)
    (raw : Str) (nk : k ≢ 0) where
  abbrev probe : ℕ → ℕ
  probe = quadratic_probing c.hash_size k

  module _ (v : Option V) (c' : LruCache V) {frees' used' : List ℕ} (p : ℕ)
      (o : Outcome c used p k v raw c' frees' used') where
    -- The bucket leads to the new entry.
    pub placed :
        (hash_key c' p ≡ k) × ((node c' p).raw_key ≡ raw) × ((at c'.list (hash_index c' p)).v ≡ v)
    unfolding entry
    placed =
        let (l, n, i) = o.ok.indexed.backed o.slot o.slot_used in
        let b = o.slot_bucket in
        let there : hash_index c' p ≡ o.slot = ap (hash_index c') (sym b) ∙ i in
        let (u, w, e) =
          o.ok.indexed.filled p (subst (λ q. q < c'.hash_size) b l)
            (λ z. n (ap (hash_key c') b ∙ z)) in
        (
          sym e ∙ ap (list_key c') there ∙ ap (λ x. x.0) o.slot_entry,
          ap (λ q. (node c' q).raw_key) (sym b) ∙ ap (λ x. x.1) o.slot_entry,
          ap (λ s. (at c'.list s).v) there ∙ ap (λ x. x.2) o.slot_entry,
        )

    -- A bucket that was passed is passed again.
    passed :
        (q : ℕ)
        → accepts c k raw true q ≡ false
        → accepts c k raw true p ≡ true
        → matches c' k raw q ≡ false
    passed q f t =
        let apart : p ≢ q = λ e. true≢false (sym t ∙ ap (accepts c k raw true) e ∙ f) in
        elim (o.others q apart) [
          | inl e ↦
              ap (λ n. (n.key == k) && eq_str n.raw_key raw) e
              ∙ matches_false (hash_key c q == 0) (matches c k raw q) f
          | inr e ↦ ap (λ t. t && eq_str (node c' q).raw_key raw) (ne→== _ k (λ z. nk (sym z ∙ e)))
        ]

    get_after :
        (j : ℕ)
        → p ≡ probe j
        → j < rounds c
        → accepts c k raw true p ≡ true
        → ((m : ℕ) → 0 ≤ m → m < j → accepts c k raw true (probe m) ≡ false)
        → (c'' : LruCache V) × (get c' k raw ≡ some (v, c''))
    unfolding rounds
    get_after j e u h f =
        let (a, b, d) = placed in
        let size : quadratic_probing c'.hash_size k ≡ probe =
          ap (λ s. quadratic_probing s k) o.frame.same_size in
        let same_rounds : rounds c' ≡ rounds c =
          ap (λ s. if ltb s c'.max_probing then s else c'.max_probing) o.frame.same_size
          ∙ ap (λ s. if ltb c.hash_size s then c.hash_size else s) o.frame.same_probing in
        let t : matches c' k raw p ≡ true = matches-intro c' k raw p a b in
        let found : scan (quadratic_probing c'.hash_size k) (matches c' k raw) (rounds c') 0 ≡ p =
          ap (λ s. scan s (matches c' k raw) (rounds c') 0) size
          ∙ ap (λ n. scan probe (matches c' k raw) n 0) same_rounds
          ∙ scan_at probe (matches c' k raw) (rounds c) 0 j (omega arith) (omega (arith, u))
              (ap (matches c' k raw) (sym e) ∙ t) (λ m l g. passed (probe m) (f m l g) h)
          ∙ sym e in
        let inside : p < c'.hash_size =
          subst (λ s. p < s) (sym o.frame.same_size)
            (subst (λ q. q < c.hash_size) (sym e) (probe_in c ok k raw j)) in
        let (c'', used'', g, _, _, _, _, _) = get_found c' o.ok k raw p inside t nk in
        (c'', get_at_bucket c' o.ok k raw p found inside g ∙ ap (λ x. some (x, c'')) d)

  -- After a `put` of a key other than 0 that overwrites and is done, `get` with the same key and raw key
  -- returns its value.
  pub put-get :
      (v : Option V) (c' : LruCache V)
      → put c k v raw true ≡ some (true, c')
      → (c'' : LruCache V) × (get c' k raw ≡ some (v, c''))
  put-get v c' e = elim (scan_lem probe (accepts c k raw true) (rounds c) 0) [
    | inl (r, f) ↦
        absurd (
          true≢false (ap (λ x. x.0) (some-injective _ _ (sym e ∙ put_refused c ok k raw v true r))))
    | inr (j, l, u, r, h, f) ↦
        let (c1, frees', used', g, o) =
          put_found c ok k raw v true (probe j) (probe_in c ok k raw j) h nk in
        let done = put_at_bucket c ok k raw v true (probe j) r (probe_in c ok k raw j) g in
        let same : c1 ≡ c' = ap (λ x. x.1) (some-injective _ _ (sym done ∙ e)) in
        subst (λ d. (c'' : LruCache V) × (get d k raw ≡ some (v, c''))) same
          (get_after v c1 (probe j) o j refl (omega (arith, u)) h f)
  ]

  -- `put` of a key other than 0 into a well-formed cache is done exactly where one of the buckets that it probes
  -- is empty or, if it overwrites, has both keys.
  pub put_done :
      (v : Option V) (overwrite : Bool)
      → (c' : LruCache V) × (put c k v raw overwrite
          ≡ some (any_hit probe (accepts c k raw overwrite) (rounds c), c'))
  put_done v overwrite = elim (scan_lem probe (accepts c k raw overwrite) (rounds c) 0) [
    | inl (r, f) ↦
        let no : any_hit probe (accepts c k raw overwrite) (rounds c) ≡ false =
          any_hit-false probe (accepts c k raw overwrite) (rounds c)
            (λ m l. f m (omega arith) (omega (arith, l))) in
        (c, put_refused c ok k raw v overwrite r ∙ ap (λ b. some (b, c)) (sym no))
    | inr (j, l, u, r, h, f) ↦
        let (c1, frees', used', g, o) =
          put_found c ok k raw v overwrite (probe j) (probe_in c ok k raw j) h nk in
        let yes : any_hit probe (accepts c k raw overwrite) (rounds c) ≡ true =
          any_hit-true probe (accepts c k raw overwrite) (rounds c) j (omega (arith, u)) h in
        (
          c1,
          put_at_bucket c ok k raw v overwrite (probe j) r (probe_in c ok k raw j) g
              ∙ ap (λ b. some (b, c1)) (sym yes),
        )
  ]
