-- ===== src/Container/LruCache/Init.antt =====
-- container/circle_cache.h: `init` makes an empty cache, with all slots but the head free.
use selib.Prelude.{
  count, ℕ, zero, suc, ◌+◌, ◌-◌, ◌*◌, ◌%◌, ◌^◌, ◌<◌, ◌≤◌, ◌≡◌, refl, sym, ap, ◌∙◌, Bool, true, ◌&&◌,
  some, List, [], ◌∷◌, ◌==◌, if◌then◌else◌, arith, length, length-replicate, replicate, get_or,
  get_or-replicate, leb, ltb,
}
use mathlib.Core.List.{append-nil}
use native.Mathlib.Nat.{mod-eq_of_lt}
use selib.Container.LruCache.{
  HashNode, ListNode, LruCache, no_hash_node, no_list_node, invalid_index, get_bit_pos, link_loop,
  make_circle, init,
}
use selib.Container.LruCache.Sizes.{pow-add, get_bit_pos_lem}
use selib.Container.LruCache.Circle.{Chain, upd}
use selib.Container.LruCache.Writes.{next_of, last_of, Relinked, unchanged, then_next, then_last}
use selib.Container.LruCache.Valid.{IsCache, node}

-- The numbers from `i` on.
abbrev pub up : ℕ → ℕ → List ℕ
up i zero = []
up i (suc n) = i ∷ up (i + 1) n

length-up : (i n : ℕ) → length (up i n) ≡ n
length-up i zero = refl
length-up i (suc n) = ap suc (length-up (i + 1) n)

within : ℕ → ℕ → ℕ → Bool
within i n j = leb i j && ltb j (i + n)

count-up : (x i n : ℕ) → count x (up i n) ≡ (if within i n x then 1 else 0)
unfolding within
count-up x i zero = ground arith
count-up x i (suc n) = ground (arith, count-up x (i + 1) n)

-- The links of the circle of `n` slots.
abbrev next_made : ℕ → ℕ → ℕ
next_made n j = if j + 1 == n then 0 else j + 1

abbrev last_made : ℕ → ℕ → ℕ
last_made n j = if j == 0 then n - 1 else j - 1

-- They lead from a slot to the next up to the last one, which leads to 0.
Chain-made :
    (nx ls : ℕ → ℕ) (n i m : ℕ)
    → ((j : ℕ) → j < n → nx j ≡ next_made n j)
    → ((j : ℕ) → j < n → ls j ≡ last_made n j)
    → i + m + 1 ≡ n
    → Chain nx ls i (up (i + 1) m) 0
unfolding Chain
Chain-made nx ls n i zero p q e = (ground (arith, p i, e), ground (arith, q 0, e))
Chain-made nx ls n i (suc m) p q e = (
  ground (arith, p i, e),
  ground (arith, q (i + 1), e),
  Chain-made nx ls n (i + 1) m p q (omega (arith, e)),
)

module _ {ℓ} {V : Type ℓ} where
  link_loop_lem :
      (n i : ℕ) (l0 l : List (ListNode V)) (nx ls : ℕ → ℕ)
      → Relinked l0 l nx ls
      → i + n ≤ length l0
      → (l' : List (ListNode V)) × (link_loop n i l ≡ some l')
        × Relinked l0 l'
            (λ j. if within i n j then j + 1 else nx j)
            (λ j. if within i n j then j - 1 else ls j)
  unfolding link_loop Relinked within
  link_loop_lem zero i l0 l nx ls (k, a, b, d) h =
      (l, refl, (k, λ j. ground (arith, a j), λ j. ground (arith, b j), d))
  link_loop_lem (suc n) i l0 l nx ls r h =
      let (l1, e1, r1) = then_next l0 l nx ls i (i + 1) r (omega (arith, h)) in
      let (l2, e2, r2) = then_last l0 l1 (upd nx i (i + 1)) ls i (i - 1) r1 (omega (arith, h)) in
      let (l', e, (k, a, b, d)) =
        link_loop_lem n (i + 1) l0 l2 (upd nx i (i + 1)) (upd ls i (i - 1)) r2 (omega (arith, h)) in
      (l', rw (e1, e2) e, (k, λ j. ground (arith, a j), λ j. ground (arith, b j), d))

  make_circle_lem :
      (n : ℕ) (l0 : List (ListNode V))
      → length l0 ≡ n
      → 2 ≤ n
      → n < 2 ^ 32
      → (l : List (ListNode V)) × (make_circle n l0 ≡ some l)
        × (length l ≡ n)
        × ((j : ℕ) → j < n → next_of l j ≡ next_made n j)
        × ((j : ℕ) → j < n → last_of l j ≡ last_made n j)
  unfolding make_circle Relinked within
  make_circle_lem n l0 k0 two small =
      let nx = next_of l0 in
      let ls = last_of l0 in
      let top : ℕ = (n + 2 ^ 32 - 1) % 2 ^ 32 in
      let below : ℕ = (n + 2 ^ 32 - 2) % 2 ^ 32 in
      let (l1, e1, r1) = then_next l0 l0 nx ls 0 1 (unchanged l0) (omega (arith, k0, two)) in
      let (l2, e2, r2) = then_last l0 l1 (upd nx 0 1) ls 0 top r1 (omega (arith, k0, two)) in
      let (l3, e3, r3) =
        link_loop_lem (n - 2) 1 l0 l2 (upd nx 0 1) (upd ls 0 top) r2 (omega (arith, k0, two)) in
      let nx3 : ℕ → ℕ = λ j. if within 1 (n - 2) j then j + 1 else upd nx 0 1 j in
      let ls3 : ℕ → ℕ = λ j. if within 1 (n - 2) j then j - 1 else upd ls 0 top j in
      let (l4, e4, r4) = then_next l0 l3 nx3 ls3 (n - 1) 0 r3 (omega (arith, k0, two)) in
      let (l5, e5, r5) =
        then_last l0 l4 (upd nx3 (n - 1) 0) ls3 (n - 1) below r4 (omega (arith, k0, two)) in
      (
        l5,
        rw (e1, e2, e3, e4) e5,
        r5.0 ∙ k0,
        λ j h. ground (arith, r5.1 j, two, h),
        λ j h. ground (arith, r5.2 j, two, h, small),
      )

  -- An empty cache whose circle is made is well-formed.
  made-IsCache :
      (c : LruCache V) (n : ℕ)
      → 2 ≤ n
      → n ≤ invalid_index
      → c.capacity ≡ n
      → c.head ≡ 0
      → c.tail ≡ 0
      → (k : ℕ) × (c.hash_size ≡ 2 ^ k)
      → c.hash_size ≤ invalid_index
      → c.hash ≡ replicate c.hash_size no_hash_node
      → length c.list ≡ n
      → ((j : ℕ) → j < n → next_of c.list j ≡ next_made n j)
      → ((j : ℕ) → j < n → last_of c.list j ≡ last_made n j)
      → IsCache c (up 1 (n - 1)) []
  unfolding within
  made-IsCache c n two few ec eh et power small hash size p q =
      let l : List ℕ = up 1 (n - 1) in
      let empty : (i : ℕ) → node c i ≡ no_hash_node =
        λ i. ap (λ h. get_or h i no_hash_node) hash ∙ get_or-replicate c.hash_size i no_hash_node in
      record {
        shape = record {
          list_size = size ∙ sym ec;
          hash_length = ap length hash ∙ length-replicate c.hash_size no_hash_node;
          power = power;
          small = small;
          few = omega (arith, ec, few);
          many = omega (arith, ec, two);
          linked =
              rw (eh, append-nil l)
                (Chain-made (next_of c.list) (last_of c.list) n 0 (n - 1) p q (omega (arith, two)));
          distinct = rw (eh, append-nil l) (λ i. ground (arith, count-up i 1 (n - 1)));
          inside = rw (eh, append-nil l) (λ i h. ground (arith, count-up i 1 (n - 1), h, ec, two));
          whole = rw (append-nil l) (omega (arith, length-up 1 (n - 1), ec, two));
          oldest = et ∙ sym eh;
        };
        indexed = record {
          filled = λ i _ f. absurd (f (ap HashNode.key (empty i)));
          vacant = λ i _ _. ap HashNode.index (empty i);
          backed = λ s h. absurd (omega (arith, h));
        };
      }

  -- The cache that `init` makes of a circle.
  made : ℕ → ℕ → ℕ → List (ListNode V) → LruCache V
  made capacity max_probing size l = record {
    hash = replicate size no_hash_node;
    list = l;
    head = 0;
    tail = 0;
    hash_size = size;
    capacity = capacity;
    max_probing = max_probing;
  }

  init-made :
      (capacity max_probing size : ℕ) (l : List (ListNode V))
      → 2 ^ (get_bit_pos (capacity * 2 % 2 ^ 32) + 1) % 2 ^ 32 ≡ size
      → make_circle capacity (replicate capacity no_list_node) ≡ some l
      → init true true capacity max_probing ≡ some (some (made capacity max_probing size l))
  unfolding init made
  init-made capacity max_probing size l e f = rw (e, f) refl

  -- `init`, where both allocations succeed, for 2 to 2 ^ 30 - 1 slots: no access is out of an array, the cache
  -- is well-formed and has no entries, and the hash has a power of two of buckets, more than twice and at most
  -- four times as many as slots.
  pub init-IsCache :
      (capacity max_probing : ℕ)
      → 2 ≤ capacity
      → capacity < 2 ^ 30
      → (c : LruCache V) × (init true true capacity max_probing ≡ some (some c))
        × IsCache c (up 1 (capacity - 1)) []
        × (c.capacity ≡ capacity)
        × (capacity * 2 < c.hash_size)
        × (c.hash_size ≤ capacity * 4)
  unfolding made
  init-IsCache capacity max_probing two small =
      let twice : capacity * 2 % 2 ^ 32 ≡ capacity * 2 = mod-eq_of_lt (omega arith) in
      let b : ℕ = get_bit_pos (capacity * 2) in
      let (low, high) = get_bit_pos_lem (capacity * 2) (omega arith) in
      let size : 2 ^ (b + 1) ≡ 2 ^ b * 2 = pow-add b in
      let whole : 2 ^ (b + 1) % 2 ^ 32 ≡ 2 ^ (b + 1) =
        mod-eq_of_lt (omega (arith, low, size, small)) in
      let exact : 2 ^ (get_bit_pos (capacity * 2 % 2 ^ 32) + 1) % 2 ^ 32 ≡ 2 ^ (b + 1) =
        ap (λ v. 2 ^ (get_bit_pos v + 1) % 2 ^ 32) twice ∙ whole in
      let (l, e, k, p, q) =
        make_circle_lem capacity (replicate capacity no_list_node)
          (length-replicate capacity no_list_node) two (omega arith) in
      let c : LruCache V = made capacity max_probing (2 ^ (b + 1)) l in
      (
        c,
        init-made capacity max_probing (2 ^ (b + 1)) l exact e,
        made-IsCache c capacity two (omega arith) refl refl refl (b + 1, refl)
            (omega (arith, low, size, small)) refl k p q,
        refl,
        high,
        omega (arith, low, size),
      )
