-- ===== src/Container/ChainHash/Chain.antt =====
-- One chain of container/chain_hash.h: what a lookup finds after a write and after a removal, and how
-- often a key occurs.
use selib.Prelude.{
  ℕ, ◌+◌, ◌≤◌, ◌≡◌, ◌⊎◌, inl, inr, refl, Bool, true, false, Option, none, some, List, [], ◌∷◌, ◌++◌,
  arith, ◌==◌, if◌then◌else◌, Option-cases,
}
use selib.Container.ChainHash.{Entry, find_chain, assign, insert_chain, remove_chain}

module _ {ℓ} {V : Type ℓ} where
  -- The number of entries of a key.
  unfoldable pub count : ℕ → List (Entry V) → ℕ
  count q [] = 0
  count q (e ∷ c) = (if e.key == q then 1 else 0) + count q c

  -- What stands under a key after a write with or without overwriting.
  abbrev pub written : Bool → V → Option V → Option V
  written ow v none = some v
  written ow v (some old) = if ow then some v else some old

  pub find_chain-eq-none : (q : ℕ) (c : List (Entry V)) → count q c ≡ 0 → find_chain q c ≡ none
  unfolding count find_chain
  find_chain-eq-none q [] h = refl
  find_chain-eq-none q (e ∷ c) h = ground (arith, find_chain-eq-none q c)

  pub find_chain-append_other :
      (q : ℕ) (c : List (Entry V)) (e : Entry V)
      → find_chain q (c ++ e ∷ [])
        ≡ (if e.key == q then written false e.value (find_chain q c) else find_chain q c)
  unfolding find_chain
  find_chain-append_other q [] e = ground arith
  find_chain-append_other q (d ∷ c) e = ground (arith, find_chain-append_other q c e)

  pub count-append_one :
      (q : ℕ) (c : List (Entry V)) (e : Entry V)
      → count q (c ++ e ∷ []) ≡ count q c + (if e.key == q then 1 else 0)
  unfolding count
  count-append_one q [] e = omega arith
  count-append_one q (d ∷ c) e = omega (arith, count-append_one q c e)

  -- What the loop of `insert` does on both of its exits.
  pub assign-none :
      (k : ℕ) (v : V) (ow : Bool) (c : List (Entry V))
      → assign k v ow c ≡ none
      → (find_chain k c ≡ none) × (count k c ≡ 0)
  unfolding assign find_chain count
  assign-none k v ow [] h = ground arith
  assign-none k v ow (e ∷ c) h = ground (arith, assign-none k v ow c)

  pub assign-some :
      (k : ℕ) (v : V) (ow : Bool) (q : ℕ) (c d : List (Entry V))
      → assign k v ow c ≡ some d
      → (find_chain q d ≡ (if k == q then written ow v (find_chain q c) else find_chain q c))
        × (count q d ≡ count q c)
  unfolding assign find_chain count
  assign-some k v ow q [] d h = ground arith
  assign-some k v ow q (e ∷ c) [] h = ground arith
  assign-some k v ow q (e ∷ c) (f ∷ d) h = ground (arith, assign-some k v ow q c d)

  -- `insert` on a chain, where the entry can be had or the key is there.
  pub insert_chain-true :
      (alloc : Bool) (k : ℕ) (v : V) (ow : Bool) (c : List (Entry V))
      → (insert_chain alloc k v ow c).0 ≡ true
      → (q : ℕ)
      → (find_chain q (insert_chain alloc k v ow c).1
          ≡ (if k == q then written ow v (find_chain q c) else find_chain q c))
        × (count q (insert_chain alloc k v ow c).1 ≤ count q c + (if k == q then 1 else 0))
        × (count k c ≤ 1 → count k (insert_chain alloc k v ow c).1 ≤ 1)
  unfolding insert_chain
  insert_chain-true alloc k v ow c ok q = elim (Option-cases (assign k v ow c)) [
    | inl e ↦ ground (
      arith,
      assign-none k v ow c e,
      find_chain-append_other q c (record { key = k; value = v }),
      count-append_one q c (record { key = k; value = v }),
      count-append_one k c (record { key = k; value = v }),
    )
    | inr (d, e) ↦ ground (arith, assign-some k v ow q c d e, assign-some k v ow k c d e)
  ]

  -- It succeeds if memory can be had or the key is there; else the chain stays.
  pub insert_chain_result :
      (alloc : Bool) (k : ℕ) (v : V) (ow : Bool) (c : List (Entry V))
      → ((insert_chain alloc k v ow c).0 ≡ true)
        ⊎ ((alloc ≡ false) × (find_chain k c ≡ none) × (insert_chain alloc k v ow c ≡ (false, c)))
  unfolding insert_chain
  insert_chain_result alloc k v ow c = elim (Option-cases (assign k v ow c)) [
    | inl e ↦ ground (arith, assign-none k v ow c e)
    | inr (d, e) ↦ ground (arith)
  ]

  -- Its result is that of the dictionary: a key that is there needs no memory.
  pub insert_chain_status :
      (alloc : Bool) (k : ℕ) (v : V) (ow : Bool) (c : List (Entry V))
      → (insert_chain alloc k v ow c).0 ≡ elim (find_chain k c) [ none ↦ alloc | some _ ↦ true ]
  unfolding insert_chain assign find_chain
  insert_chain_status alloc k v ow [] = ground arith
  insert_chain_status alloc k v ow (e ∷ c) = ground (arith, insert_chain_status alloc k v ow c)

  pub find_chain-remove_chain :
      (k q : ℕ) (c : List (Entry V))
      → count q c ≤ 1
      → find_chain q (remove_chain k c) ≡ (if k == q then none else find_chain q c)
  unfolding find_chain remove_chain count
  find_chain-remove_chain k q [] h = ground arith
  find_chain-remove_chain k q (e ∷ c) h =
      ground (arith, find_chain-remove_chain k q c, find_chain-eq-none q c)

  pub count-remove_chain : (k q : ℕ) (c : List (Entry V)) → count q (remove_chain k c) ≤ count q c
  unfolding remove_chain count
  count-remove_chain k q [] = omega arith
  count-remove_chain k q (e ∷ c) = ground (arith, count-remove_chain k q c)
