-- ===== src/Container/LruCache/Probe.antt =====
-- container/circle_cache.h: where the two probing loops stop. The sequence of buckets is the same, so that
-- `get` goes the way that `put` went.
use selib.Prelude.{
  ℕ, zero, suc, ◌+◌, ◌-◌, ◌*◌, ◌/◌, ◌%◌, ◌^◌, ◌<◌, ◌≤◌, ◌≡◌, refl, sym, ap, ◌∙◌, Bool, true, false,
  ◌&&◌, ◌||◌, inl, inr, ◌⊎◌, some, List, ◌==◌, if◌then◌else◌, arith, get_elem?, get_elem?-eq-get_or,
  Str, eq_str, eq_str-eq, eq_str_self, eq→==, ==_iff, Bool-cases, and_parts, ℕ_discrete,
}
use Prim.Native.Nat.{bit_and}
use native.Mathlib.Nat.{mod-lt}
use selib.Prelude.Bits.{bit_and-mask, pow_pos}
use selib.Container.LruCache.{
  LruCache, no_hash_node, invalid_index, quadratic_probing, get_probe, put_probe,
}
use selib.Container.LruCache.Writes.{ap-if}
use selib.Container.LruCache.Valid.{IsCache, node, hash_key}

-- Where the number of buckets is a power of two, each bucket of the probing sequence is one of them.
pub quadratic_probing_below :
    (size k key i : ℕ) → size ≡ 2 ^ k → quadratic_probing size key i < size
unfolding quadratic_probing
quadratic_probing_below size k key i e =
    rw (e, bit_and-mask (bit_and key (2 ^ k - 1) + (i + i * i) / 2 % 2 ^ 32) k)
      (mod-lt _ (pow_pos k))

-- Both loops are a scan of the same sequence, each with its test.
abbrev pub scan : (ℕ → ℕ) → (ℕ → Bool) → ℕ → ℕ → ℕ
scan probe test zero i = invalid_index
scan probe test (suc n) i = if test (probe i) then probe i else scan probe test n (i + 1)

-- Nothing, or the first hit.
abbrev pub Scanned : (ℕ → ℕ) → (ℕ → Bool) → ℕ → ℕ → ℕ → Type 0
Scanned probe test n i r =
    ((r ≡ invalid_index) × ((m : ℕ) → i ≤ m → m < i + n → test (probe m) ≡ false))
    ⊎ ((j : ℕ) × (i ≤ j)
        × (j < i + n)
        × (r ≡ probe j)
        × (test (probe j) ≡ true)
        × ((m : ℕ) → i ≤ m → m < j → test (probe m) ≡ false))

module _ (probe : ℕ → ℕ) (test : ℕ → Bool) where
  -- The first probe is no hit: the others count from there.
  later :
      (i : ℕ) (good : ℕ → Type 0)
      → test (probe i) ≡ false
      → ((m : ℕ) → i + 1 ≤ m → good m → test (probe m) ≡ false)
      → (m : ℕ) → i ≤ m
      → good m
      → test (probe m) ≡ false
  later i good e f m l g = elim (ℕ_discrete i m) [
    | yes h ↦ ap (λ z. test (probe z)) (sym h) ∙ e
    | no h ↦ f m (ground arith) g
  ]

  pub scan_lem : (n i : ℕ) → Scanned probe test n i (scan probe test n i)
  scan_lem zero i = inl (refl, λ m l g. absurd (omega arith))
  scan_lem (suc n) i = elim (Bool-cases (test (probe i))) [
    | inl e ↦ inr (i, omega arith, omega arith, rw e, e, λ m l g. absurd (omega arith))
    | inr e ↦
        let skip : scan probe test (suc n) i ≡ scan probe test n (i + 1) = rw e in
        elim (scan_lem n (i + 1)) [
          | inl (r, f) ↦
              inl (skip ∙ r, later i (λ m. m < i + suc n) e (λ m l g. f m l (omega arith)))
          | inr (j, l, u, r, h, f) ↦
              inr (j, omega arith, omega arith, skip ∙ r, h, later i (λ m. m < j) e f)
        ]
  ]

  -- A hit with none before it is the one that is found.
  pub scan_at :
      (n i j : ℕ)
      → i ≤ j
      → j < i + n
      → test (probe j) ≡ true
      → ((m : ℕ) → i ≤ m → m < j → test (probe m) ≡ false)
      → scan probe test n i ≡ probe j
  scan_at zero i j l u h f = absurd (omega arith)
  scan_at (suc n) i j l u h f = elim (ℕ_discrete i j) [
    | yes e ↦ let a : test (probe i) ≡ true = ap (λ z. test (probe z)) e ∙ h in rw a (ap probe e)
    | no e ↦
        rw (f i (omega arith) (ground arith))
          (scan_at n (i + 1) j (ground arith) (omega arith) h (λ m a b. f m (omega arith) b))
  ]

or_if {ℓ} :
    {A : Type ℓ} (a b : Bool) (x y : A)
    → (if a then x else if b then x else y) ≡ (if a || b then x else y)
or_if true b x y = refl
or_if false b x y = refl

module _ {ℓ} {V : Type ℓ} where
  -- The test of `get`, and that of `put`.
  abbrev pub matches : LruCache V → ℕ → Str → ℕ → Bool
  matches c k raw q = (hash_key c q == k) && eq_str (node c q).raw_key raw

  abbrev pub accepts : LruCache V → ℕ → Str → Bool → ℕ → Bool
  accepts c k raw overwrite q = (hash_key c q == 0) || (matches c k raw q && overwrite)

  pub matches-parts :
      (c : LruCache V) (k : ℕ) (raw : Str) (q : ℕ)
      → matches c k raw q ≡ true
      → (hash_key c q ≡ k) × ((node c q).raw_key ≡ raw)
  matches-parts c k raw q h =
      let (a, b) = and_parts (hash_key c q == k) (eq_str (node c q).raw_key raw) h in
      ((==_iff (hash_key c q) k).0 a, eq_str-eq (node c q).raw_key raw b)

  pub matches-intro :
      (c : LruCache V) (k : ℕ) (raw : Str) (q : ℕ)
      → hash_key c q ≡ k
      → (node c q).raw_key ≡ raw
      → matches c k raw q ≡ true
  matches-intro c k raw q a b =
      ap (λ t. t && eq_str (node c q).raw_key raw) (eq→== _ k a)
      ∙ ap (λ r. eq_str r raw) b
      ∙ eq_str_self raw

  -- The buckets that are probed are in the array.
  bucket_read :
      {frees used : List ℕ} (c : LruCache V)
      → IsCache c frees used
      → (k i : ℕ)
      → get_elem? c.hash (quadratic_probing c.hash_size k i)
        ≡ some (node c (quadratic_probing c.hash_size k i))
  bucket_read c ok k i = get_elem?-eq-get_or c.hash _ no_hash_node (
      omega (
        arith,
        ok.shape.hash_length,
        quadratic_probing_below c.hash_size ok.shape.power.0 k i ok.shape.power.1,
      ))

  module _ {frees used : List ℕ} (c : LruCache V) (ok : IsCache c frees used) (k : ℕ)
      (raw : Str) where
    pub put_probe-scan :
        (overwrite : Bool) (n i : ℕ)
        → put_probe n i c k raw overwrite
          ≡ some (scan (quadratic_probing c.hash_size k) (accepts c k raw overwrite) n i)
    unfolding put_probe
    put_probe-scan overwrite zero i = refl
    put_probe-scan overwrite (suc n) i =
        let p : ℕ = quadratic_probing c.hash_size k i in
        rw (bucket_read c ok k i) (
          ap
            (λ r.
              if hash_key c p == 0
              then some p
              else if matches c k raw p && overwrite
              then some p
              else r)
            (put_probe-scan overwrite n (i + 1))
          ∙ or_if (hash_key c p == 0) (matches c k raw p && overwrite) (some p) _
          ∙ sym (ap-if some (accepts c k raw overwrite p) p _))

    pub get_probe-scan :
        (n i : ℕ)
        → get_probe n i c k raw
          ≡ some (scan (quadratic_probing c.hash_size k) (matches c k raw) n i)
    unfolding get_probe
    get_probe-scan zero i = refl
    get_probe-scan (suc n) i =
        let p : ℕ = quadratic_probing c.hash_size k i in
        rw (bucket_read c ok k i) (
          ap (λ r. if matches c k raw p then some p else r) (get_probe-scan n (i + 1))
          ∙ sym (ap-if some (matches c k raw p) p _))
