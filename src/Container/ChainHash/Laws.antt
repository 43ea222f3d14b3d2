-- ===== src/Container/ChainHash/Laws.antt =====
-- The table of container/chain_hash.h: its invariant, and each operation in terms of the value that
-- stands under a key.
use selib.Prelude.{
  ℕ, ◌+◌, ◌%◌, ◌^◌, ◌≤◌, ◌<◌, ◌≡◌, ◌≢◌, Bool, true, Option, none, some, List, [], arith, ◌==◌,
  if◌then◌else◌, length, get_or, get_elem?-eq-get_or, get_or-set, length-set, length-replicate,
  get_or-replicate, set-get_or, if_same, if-==, Bool-cases, ==_iff, inl, inr, sym, ap, ◌∙◌,
}
use mathlib.Core.Bool.{false≢true}
use mathlib.Core.Path.{subst}
use mathlib.Core.Option.{some-injective}
use selib.Container.ChainHash.{
  Entry, ChainHashMap, create, bucket, find_chain, find, insert_chain, set_bucket, insert,
  remove_chain, remove, clear,
}
use selib.Container.ChainHash.Chain.{
  count, written, insert_chain-true, insert_chain_result, find_chain-remove_chain,
  count-remove_chain,
}

module _ {ℓ} {V : Type ℓ} where
  -- The table has a chain for each residue, an entry stands in the chain of its key, and no key
  -- stands twice.
  pub record IsValid (m : ChainHashMap V) : Type 0 where
    pub pos : 0 < m.bucket_num
    pub small : m.bucket_num ≤ 2 ^ 31
    pub size : length m.table ≡ m.bucket_num
    pub placed : (i k : ℕ) → k % m.bucket_num ≢ i → count k (get_or m.table i []) ≡ 0
    pub unique : (i k : ℕ) → count k (get_or m.table i []) ≤ 1

  -- The chain of a key.
  abbrev pub chain : ChainHashMap V → ℕ → List (Entry V)
  chain m k = get_or m.table (k % m.bucket_num) []

  -- The abstract view: the value that stands under a key.
  unfoldable pub contents : ChainHashMap V → ℕ → Option V
  contents m k = find_chain k (chain m k)

  bucket-chain : {m : ChainHashMap V} (k : ℕ) → IsValid m → bucket m k ≡ some (chain m k)
  unfolding bucket
  bucket-chain {m} k v =
      ground (arith, v.pos, v.small, v.size, get_elem?-eq-get_or m.table (k % m.bucket_num) [])

  pub find_lem : {m : ChainHashMap V} (k : ℕ) → IsValid m → find m k ≡ some (contents m k)
  unfolding find contents
  find_lem k v = rw (bucket-chain k v)

  pub insert_lem :
      {m : ChainHashMap V} (alloc : Bool) (k : ℕ) (x : V) (ow : Bool)
      → IsValid m
      → insert alloc m k x ow
        ≡ some (
          (insert_chain alloc k x ow (chain m k)).0,
          set_bucket m k (insert_chain alloc k x ow (chain m k)).1,
        )
  unfolding insert
  insert_lem alloc k x ow v = rw (bucket-chain k v)

  pub remove_lem :
      {m : ChainHashMap V} (k : ℕ)
      → IsValid m
      → remove m k ≡ some (set_bucket m k (remove_chain k (chain m k)))
  unfolding remove
  remove_lem k v = rw (bucket-chain k v)

  -- Replacing the chain of a key keeps the invariant if the new chain holds nothing new but the key.
  set_bucket-IsValid :
      {m : ChainHashMap V} (k : ℕ) (c : List (Entry V))
      → IsValid m
      → ((q : ℕ) → count q c ≤ count q (chain m k) + (if k == q then 1 else 0))
      → count k c ≤ 1
      → IsValid (set_bucket m k c)
  unfolding set_bucket
  set_bucket-IsValid {m} k c v below once = record {
    pos = v.pos;
    small = v.small;
    size = ground (arith, v.size, length-set m.table (k % m.bucket_num) c);
    placed = λ i q ne. ground (
      arith,
      v.pos,
      v.size,
      v.placed i q,
      v.placed (k % m.bucket_num) q,
      below q,
      get_or-set m.table (k % m.bucket_num) i c [],
    );
    unique = λ i q. ground (
      arith,
      v.pos,
      v.size,
      v.unique i q,
      v.unique (k % m.bucket_num) q,
      below q,
      once,
      get_or-set m.table (k % m.bucket_num) i c [],
    );
  }

  contents-set_bucket :
      {m : ChainHashMap V} (k q : ℕ) (c : List (Entry V)) (new : Option V)
      → IsValid m
      → find_chain q c ≡ (if k == q then new else find_chain q (chain m k))
      → contents (set_bucket m k c) q ≡ (if k == q then new else contents m q)
  unfolding set_bucket contents
  contents-set_bucket {m} k q c new v h =
      rw
        (get_or-set m.table (k % m.bucket_num) (q % m.bucket_num) c []
          (omega (arith, v.pos, v.size)))
        (elim (Bool-cases (k % m.bucket_num == q % m.bucket_num)) [
          | inl same ↦
              rw (same, h)
                (ap (λ (i : ℕ). if k == q then new else find_chain q (get_or m.table i []))
                  ((==_iff _ _).0 same))
          | inr other ↦ rw other (elim (Bool-cases (k == q)) [
            | inl e ↦ absurd (
                false≢true (
                  sym other ∙ (==_iff _ _).1 (ap (λ (i : ℕ). i % m.bucket_num) ((==_iff k q).0 e))))
            | inr e ↦ rw e
          ])
        ])

  set_bucket-chain : (m : ChainHashMap V) (k : ℕ) → set_bucket m k (chain m k) ≡ m
  unfolding set_bucket
  set_bucket-chain m k = ap (λ t. record m { table = t }) (set-get_or m.table (k % m.bucket_num) [])

  -- A table as `create` leaves it is valid and empty.
  pub create-IsValid :
      (n : ℕ) {m : ChainHashMap V} → 0 < n → n ≤ 2 ^ 31 → create true n ≡ some m → IsValid m
  unfolding create count
  create-IsValid n {m} h small e = subst IsValid (some-injective _ _ e) (record {
    pos = h;
    small = small;
    size = length-replicate n [];
    placed = λ i k ne. rw get_or-replicate;
    unique = λ i k. rw get_or-replicate (omega arith);
  })

  -- `insert` keeps the invariant, also where it fails.
  pub insert-IsValid :
      {m : ChainHashMap V} (alloc : Bool) (k : ℕ) (x : V) (ow : Bool)
      → IsValid m
      → IsValid (set_bucket m k (insert_chain alloc k x ow (chain m k)).1)
  insert-IsValid {m} alloc k x ow v = elim (insert_chain_result alloc k x ow (chain m k)) [
    | inl ok ↦
        set_bucket-IsValid k _ v (λ q. (insert_chain-true alloc k x ow (chain m k) ok q).1)
          ((insert_chain-true alloc k x ow (chain m k) ok k).2 (v.unique _ k))
    | inr (a, b, same) ↦ rw same (set_bucket-IsValid k _ v (λ q. omega arith) (v.unique _ k))
  ]

  -- What stands under a key after `insert`.
  pub contents-insert :
      {m : ChainHashMap V} (alloc : Bool) (k : ℕ) (x : V) (ow : Bool) (q : ℕ)
      → IsValid m
      → contents (set_bucket m k (insert_chain alloc k x ow (chain m k)).1) q ≡ (
          if k == q
          then (if (insert_chain alloc k x ow (chain m k)).0
              then written ow x (contents m q)
              else contents m q)
          else contents m q)
  unfolding contents
  contents-insert {m} alloc k x ow q v = elim (insert_chain_result alloc k x ow (chain m k)) [
    | inl ok ↦ rw ok (
        (contents-set_bucket k q _ (written ow x (find_chain q (chain m k))) v
          (insert_chain-true alloc k x ow (chain m k) ok q).0)
        ∙ if-== k q (λ i. written ow x (find_chain q (chain m i))) (contents m q))
    | inr (a, b, same) ↦ rw (same, set_bucket-chain m k, if_same (k == q))
  ]

  -- `remove` keeps the invariant.
  pub remove-IsValid :
      {m : ChainHashMap V} (k : ℕ)
      → IsValid m
      → IsValid (set_bucket m k (remove_chain k (chain m k)))
  remove-IsValid {m} k v =
      set_bucket-IsValid k _ v (λ q. omega (arith, count-remove_chain k q (chain m k)))
        (omega (arith, count-remove_chain k k (chain m k), v.unique (k % m.bucket_num) k))

  -- What stands under a key after `remove`.
  pub contents-remove :
      {m : ChainHashMap V} (k q : ℕ)
      → IsValid m
      → contents (set_bucket m k (remove_chain k (chain m k))) q
        ≡ (if k == q then none else contents m q)
  contents-remove {m} k q v =
      contents-set_bucket k q _ none v
        (find_chain-remove_chain k q (chain m k) (v.unique (k % m.bucket_num) q))

  -- `clear` keeps the invariant and leaves nothing under any key.
  pub clear-IsValid : {m : ChainHashMap V} → IsValid m → IsValid (clear m).1
  unfolding clear count
  clear-IsValid {m} v = record {
    pos = v.pos;
    small = v.small;
    size = length-replicate m.bucket_num [];
    placed = λ i k ne. rw get_or-replicate;
    unique = λ i k. rw get_or-replicate (omega arith);
  }

  pub contents-clear : (m : ChainHashMap V) (q : ℕ) → contents (clear m).1 q ≡ none
  unfolding clear contents find_chain
  contents-clear m q = rw get_or-replicate
