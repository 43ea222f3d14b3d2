-- ===== src/Container/LruCache/Entries.antt =====
-- container/circle_cache.h: the entries of a cache, the least recently used first, and the steps that `put`
-- and `get` make on them.
use selib.Prelude.{
  count, ℕ, suc, ◌<◌, ◌≤◌, ◌≡◌, ◌≢◌, refl, sym, ap, ◌∙◌, Bool, true, false, Option, none, List, [],
  ◌∷◌, ◌++◌, arith, length, map, Str, ◌⊎◌, eq→==, ℕ_discrete,
}
use mathlib.Core.List.{map-append}
use selib.Container.LruCache.{ListNode, LruCache}
use selib.Container.LruCache.Index.{Indexed}
use selib.Container.LruCache.Writes.{data_of}
use selib.Container.LruCache.Valid.{entry, node}

-- Key, raw key and value.
abbrev pub Item {ℓ} : Type ℓ → Type ℓ
Item V = ℕ × Str × Option V

-- `get`: nothing is found, or an item with both keys becomes the most recently used one.
pub data GetStep {ℓ} {V : Type ℓ} (k : ℕ) (raw : Str)
    : List (Item V) → Option V → List (Item V) → Type ℓ where
  miss : {es : List (Item V)} → GetStep k raw es none es
  hit :
      (a : List (Item V)) (v : Option V) (b : List (Item V))
      → GetStep k raw (a ++ (k, raw, v) ∷ b) v (a ++ b ++ (k, raw, v) ∷ [])

-- `put`: it is refused, an item with both keys gets the value, or a new item is added; the oldest item goes
-- where there is one item less than the capacity.
pub data PutStep {ℓ} {V : Type ℓ} (capacity : ℕ) (e : Item V)
    : List (Item V) → Bool → List (Item V) → Type ℓ where
  refused : {es : List (Item V)} → PutStep capacity e es false es
  renewed :
      (a : List (Item V)) (old : Option V) (b : List (Item V))
      → PutStep capacity e (a ++ (e.0, e.1, old) ∷ b) true (a ++ b ++ e ∷ [])
  added :
      {es : List (Item V)} → suc (length es) < capacity → PutStep capacity e es true (es ++ e ∷ [])
  replaced :
      (old : Item V) (es : List (Item V))
      → suc (length (old ∷ es)) ≡ capacity
      → PutStep capacity e (old ∷ es) true (es ++ e ∷ [])

-- The new item comes last where there are at least two slots more than items, or the oldest item goes for it.
abbrev pub Adds {ℓ} : {V : Type ℓ} → ℕ → Item V → List (Item V) → List (Item V) → Type ℓ
Adds {V} capacity e es es' =
    ((suc (length es) < capacity) × (es' ≡ es ++ e ∷ []))
    ⊎ ((old : Item V) × (rest : List (Item V)) × (es ≡ old ∷ rest)
        × (suc (length es) ≡ capacity)
        × (es' ≡ rest ++ e ∷ []))

-- An item with both keys and a value goes for the new one, which comes last.
abbrev pub Renews {ℓ} : {V : Type ℓ} → Item V → Option V → List (Item V) → List (Item V) → Type ℓ
Renews {V} e old es es' =
    (a : List (Item V)) × (b : List (Item V)) × (es ≡ a ++ (e.0, e.1, old) ∷ b)
    × (es' ≡ a ++ b ++ e ∷ [])

-- Where a slot stands in a list.
pub split_at : (x : ℕ) (l : List ℕ) → 1 ≤ count x l → (a : List ℕ) × (b : List ℕ) × (l ≡ a ++ x ∷ b)
split_at x [] h = absurd (omega arith)
split_at x (y ∷ l) h = elim (ℕ_discrete x y) [
  | yes e ↦ ([], l, ap (λ z. z ∷ l) (sym e))
  | no n ↦ let (a, b, e) = split_at x l (ground (arith, h)) in (y ∷ a, b, ap (◌∷◌ y) e)
]

pub map_same {ℓ} :
    {A : Type ℓ} (f g : ℕ → A) (l : List ℕ)
    → ((s : ℕ) → 1 ≤ count s l → f s ≡ g s)
    → map f l ≡ map g l
map_same f g [] h = refl
map_same f g (x ∷ l) h =
    ap (λ y. y ∷ map f l) (h x (ground (arith, eq→== x x refl)))
    ∙ ap (◌∷◌ (g x)) (map_same f g l (λ s k. h s (omega arith)))

-- Two slots in use have different buckets.
pub apart_buckets :
    (size : ℕ) (hk hi lk lb : ℕ → ℕ) (used : List ℕ) (s r : ℕ)
    → Indexed size hk hi lk lb used
    → 1 ≤ count s used
    → 1 ≤ count r used
    → s ≢ r
    → lb s ≢ lb r
apart_buckets size hk hi lk lb used s r x p q d e =
    d (sym (x.backed s p).2 ∙ ap hi e ∙ (x.backed r q).2)

module _ {ℓ} {V : Type ℓ} where
  unfoldable pub entries : LruCache V → List ℕ → List (Item V)
  entries c used = map (entry c) used

  pub entries-same :
      (c d : LruCache V) (l : List ℕ)
      → ((s : ℕ) → 1 ≤ count s l → entry c s ≡ entry d s)
      → entries c l ≡ entries d l
  unfolding entries
  entries-same c d l h = map_same (entry c) (entry d) l h

  pub entries-at :
      (c : LruCache V) (a : List ℕ) (x : ℕ) (b : List ℕ)
      → entries c (a ++ x ∷ b) ≡ entries c a ++ entry c x ∷ entries c b
  unfolding entries
  entries-at c a x b = map-append (entry c) a (x ∷ b)

  pub entries-moved :
      (c : LruCache V) (a : List ℕ) (x : ℕ) (b : List ℕ)
      → entries c (a ++ b ++ x ∷ []) ≡ entries c a ++ entries c b ++ entry c x ∷ []
  unfolding entries
  entries-moved c a x b =
      map-append (entry c) (a ++ b) (x ∷ [])
      ∙ ap (λ l. l ++ entry c x ∷ []) (map-append (entry c) a b)

  pub entries-last :
      (c : LruCache V) (a : List ℕ) (x : ℕ)
      → entries c (a ++ x ∷ []) ≡ entries c a ++ entry c x ∷ []
  unfolding entries
  entries-last c a x = map-append (entry c) a (x ∷ [])

  pub length-entries : (c : LruCache V) (l : List ℕ) → length (entries c l) ≡ length l
  unfolding entries
  length-entries c [] = refl
  length-entries c (x ∷ l) = ap suc (length-entries c l)

  -- An entry does not depend on the links.
  pub entry-data :
      (c : LruCache V) (l : List (ListNode V)) (t : ℕ)
      → ((j : ℕ) → data_of l j ≡ data_of c.list j)
      → (s : ℕ) → entry (record c { list = l; tail = t }) s ≡ entry c s
  unfolding entry
  entry-data c l t d s = ap (λ (n : ListNode V). (n.key, (node c n.bucket).raw_key, n.v)) (d s)
