-- ===== src/Container/LruCache/Index.antt =====
-- container/circle_cache.h: how the buckets of the hash and the slots in use point to each other, with the
-- members of both arrays as functions.
use selib.Prelude.{
  count, count-append, ℕ, ◌<◌, ◌≤◌, ◌≡◌, ◌≢◌, refl, sym, ap, ◌∙◌, List, [], ◌∷◌, ◌++◌, arith, ne→==,
  eq→==, ℕ_discrete,
}
use mathlib.Core.Path.{subst}
use selib.Container.LruCache.{invalid_index}
use selib.Container.LruCache.Circle.{IsDistinct, upd, upd_self, upd_other, upd_hit, upd_idle}

-- Of `size` buckets those with a key have the slots in use as their indexes, with the same keys, and the
-- slots have them as their buckets; the others have no index.
pub record Indexed (size : ℕ) (hash_key hash_index list_key list_bucket : ℕ → ℕ) (used : List ℕ)
    : Type 0 where
  pub filled :
      (p : ℕ)
      → p < size
      → hash_key p ≢ 0
      → (1 ≤ count (hash_index p) used)
        × (list_bucket (hash_index p) ≡ p)
        × (list_key (hash_index p) ≡ hash_key p)
  pub vacant : (p : ℕ) → p < size → hash_key p ≡ 0 → hash_index p ≡ invalid_index
  pub backed :
      (s : ℕ)
      → 1 ≤ count s used
      → (list_bucket s < size) × (hash_key (list_bucket s) ≢ 0) × (hash_index (list_bucket s) ≡ s)

-- The order of the slots does not matter, and the functions only by their values.
pub Indexed-same :
    {size : ℕ} {hk hi lk lb hk' hi' lk' lb' : ℕ → ℕ} {used used' : List ℕ}
    → ((p : ℕ) → hk' p ≡ hk p)
    → ((p : ℕ) → hi' p ≡ hi p)
    → ((s : ℕ) → lk' s ≡ lk s)
    → ((s : ℕ) → lb' s ≡ lb s)
    → ((s : ℕ) → count s used' ≡ count s used)
    → Indexed size hk hi lk lb used
    → Indexed size hk' hi' lk' lb' used'
Indexed-same {size} {hk} {hi} {lk} {lb} {hk'} {hi'} {lk'} {lb'} {used} {used'} a b c d e x =
    record {
      filled = λ p l n.
          let (u, v, w) = x.filled p l (λ z. n (a p ∙ z)) in
          (
            subst (λ i. 1 ≤ count i used') (sym (b p)) (omega (arith, e (hi p), u)),
            ap lb' (b p) ∙ d (hi p) ∙ v,
            ap lk' (b p) ∙ c (hi p) ∙ w ∙ sym (a p),
          );
      vacant = λ p l n. b p ∙ x.vacant p l (sym (a p) ∙ n);
      backed = λ s u.
          let (v, w, z) = x.backed s (omega (arith, e s)) in
          (
            omega (arith, d s, v),
            λ n. w (sym (a (lb s)) ∙ ap hk' (sym (d s)) ∙ n),
            ap hi' (d s) ∙ b (lb s) ∙ z,
          );
    }

-- A slot that is not in the list is not the one that is.
absent : (s r : ℕ) (used : List ℕ) → count s used ≡ 0 → 1 ≤ count r used → s ≢ r
absent s r used n u e =
    let k : 1 ≤ count s used = subst (λ z. 1 ≤ count z used) (sym e) u in omega (arith, n)

-- A slot that is not in use is taken for an empty bucket.
module _ {size : ℕ} {hk hi lk lb : ℕ → ℕ} {used : List ℕ} (p s k : ℕ)
    (x : Indexed size hk hi lk lb used) where
  pub Indexed-add :
      p < size
      → hk p ≡ 0
      → k ≢ 0
      → count s used ≡ 0
      → Indexed size (upd hk p k) (upd hi p s) (upd lk s k) (upd lb s p) (used ++ s ∷ [])
  Indexed-add lp e nk ns = record {
    filled = λ q l n. elim (ℕ_discrete p q) [
      | yes g ↦ (
        subst (λ i. 1 ≤ count i (used ++ s ∷ [])) (sym (upd_hit hi p s q g))
            (ground (arith, count-append s used (s ∷ []), eq→== s s refl)),
        ap (upd lb s p) (upd_hit hi p s q g) ∙ upd_self lb s p ∙ g,
        ap (upd lk s k) (upd_hit hi p s q g) ∙ upd_self lk s k ∙ sym (upd_hit hk p k q g),
      )
      | no g ↦
          let (u, v, w) = x.filled q l (λ z. n (upd_other hk p k q g ∙ z)) in
          let d : s ≢ hi q = absent s (hi q) used ns u in
          (
            subst (λ i. 1 ≤ count i (used ++ s ∷ [])) (sym (upd_other hi p s q g))
                (omega (arith, count-append (hi q) used (s ∷ []), u)),
            ap (upd lb s p) (upd_other hi p s q g) ∙ upd_other lb s p (hi q) d ∙ v,
            ap (upd lk s k) (upd_other hi p s q g)
                ∙ upd_other lk s k (hi q) d
                ∙ w
                ∙ sym (upd_other hk p k q g),
          )
    ];
    vacant = λ q l n. elim (ℕ_discrete p q) [
      | yes g ↦ absurd (nk (sym (upd_hit hk p k q g) ∙ n))
      | no g ↦ upd_other hi p s q g ∙ x.vacant q l (sym (upd_other hk p k q g) ∙ n)
    ];
    backed = λ r u. elim (ℕ_discrete s r) [
      | yes g ↦ (
        subst (λ b. b < size) (sym (upd_hit lb s p r g)) lp,
        λ z. nk (sym (upd_self hk p k) ∙ ap (upd hk p k) (sym (upd_hit lb s p r g)) ∙ z),
        ap (upd hi p s) (upd_hit lb s p r g) ∙ upd_self hi p s ∙ g,
      )
      | no g ↦
          let inner : 1 ≤ count r used =
            ground (arith, count-append r used (s ∷ []), ne→== r s (λ z. g (sym z)), u) in
          let (v, w, z) = x.backed r inner in
          let d : p ≢ lb r = λ h. w (sym (ap hk h) ∙ e) in
          let b = upd_other lb s p r g in
          (
            subst (λ b. b < size) (sym b) v,
            λ h. w (sym (upd_other hk p k (lb r) d) ∙ ap (upd hk p k) (sym b) ∙ h),
            ap (upd hi p s) b ∙ upd_other hi p s (lb r) d ∙ z,
          )
    ];
  }

  -- A bucket is written again for its key.
  pub Indexed-renew :
      hk p ≡ k
      → hi p ≡ s
      → p < size
      → k ≢ 0
      → Indexed size (upd hk p k) (upd hi p s) (upd lk s k) (upd lb s p) used
  Indexed-renew a b l nk =
      let (u, v, w) = x.filled p l (λ z. nk (sym a ∙ z)) in
      Indexed-same (upd_idle hk p k a) (upd_idle hi p s b) (upd_idle lk s k (ap lk (sym b) ∙ w ∙ a))
        (upd_idle lb s p (ap lb (sym b) ∙ v)) (λ r. refl) x

-- The first of the slots in use is given up, with its bucket.
pub Indexed-drop :
    {size : ℕ} {hk hi lk lb : ℕ → ℕ} (t : ℕ) (used : List ℕ)
    → IsDistinct (t ∷ used)
    → Indexed size hk hi lk lb (t ∷ used)
    → Indexed size (upd hk (lb t) 0) (upd hi (lb t) invalid_index) (upd lk t 0) lb used
Indexed-drop {size} {hk} {hi} {lk} {lb} t used d x =
    let b : ℕ = lb t in
    let (lt, nt, it) = x.backed t (ground (arith, eq→== t t refl)) in
    let out : count t used ≡ 0 = ground (arith, d t, eq→== t t refl) in
    record {
      filled = λ q l n. elim (ℕ_discrete b q) [
        | yes g ↦ absurd (n (upd_hit hk b 0 q g))
        | no g ↦
            let (u, v, w) = x.filled q l (λ z. n (upd_other hk b 0 q g ∙ z)) in
            let other : t ≢ hi q = λ h. g (ap lb h ∙ v) in
            (
              subst (λ i. 1 ≤ count i used) (sym (upd_other hi b invalid_index q g))
                  (ground (arith, u, ne→== (hi q) t (λ z. other (sym z)))),
              ap lb (upd_other hi b invalid_index q g) ∙ v,
              ap (upd lk t 0) (upd_other hi b invalid_index q g)
                  ∙ upd_other lk t 0 (hi q) other
                  ∙ w
                  ∙ sym (upd_other hk b 0 q g),
            )
      ];
      vacant = λ q l n. elim (ℕ_discrete b q) [
        | yes g ↦ upd_hit hi b invalid_index q g
        | no g ↦ upd_other hi b invalid_index q g ∙ x.vacant q l (sym (upd_other hk b 0 q g) ∙ n)
      ];
      backed = λ r u.
          let (v, w, z) = x.backed r (omega (arith, u)) in
          let other : b ≢ lb r = λ h. absent t r used out u (sym it ∙ ap hi h ∙ z) in
          (
            v,
            λ h. w (sym (upd_other hk b 0 (lb r) other) ∙ h),
            upd_other hi b invalid_index (lb r) other ∙ z,
          );
    }
