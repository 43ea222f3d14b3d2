-- ===== src/Container/ChainHash.antt =====
-- container/chain_hash.h: `HashEntry` and `ChainHashMap`. A chain of entries linked by `next` is the
-- list of its entries, and `table` is the list of the chains. `alloc` says whether
-- `new (std::nothrow)` succeeds. A `none` outside is a fault: the key is reduced modulo zero, or the
-- table is read out of range.
pub mod Chain
pub mod Laws
pub mod Refine
mod Tests
use selib.Prelude.{
  ℕ, ◌+◌, ◌%◌, ◌^◌, leb, Bool, true, false, Option, none, some, List, [], ◌∷◌, ◌++◌, ◌==◌,
  if◌then◌else◌, get_elem?, set, replicate,
}
use mathlib.Core.Option
use mathlib.Core.List.{flatten}

module _ {ℓ} where
  -- `HashEntry`; its `next` is the place in the chain.
  pub record Entry (V : Type ℓ) : Type ℓ where
    pub key : ℕ
    pub value : V

  -- `ChainHashMap`
  pub record ChainHashMap (V : Type ℓ) : Type ℓ where
    pub table : List (List (Entry V))
    pub bucket_num : ℕ

module _ {ℓ} {V : Type ℓ} where
  -- `create`, where `-1` is `none`.
  unfoldable pub create : Bool → ℕ → Option (ChainHashMap V)
  create alloc bucket_num =
      if alloc
      then some (record { table = replicate bucket_num []; bucket_num = bucket_num })
      else none

  -- `table[hash]` for `int hash = (key % _bucket_num)`: from 2 ^ 31 on the `int` is negative.
  pub bucket : ChainHashMap V → ℕ → Option (List (Entry V))
  bucket m key =
      if m.bucket_num == 0
      then none
      else if leb (2 ^ 31) (key % m.bucket_num)
      then none
      else get_elem? m.table (key % m.bucket_num)

  -- The loop of `find`.
  pub find_chain : ℕ → List (Entry V) → Option V
  find_chain key [] = none
  find_chain key (e ∷ c) = if e.key == key then some e.value else find_chain key c

  pub find : ChainHashMap V → ℕ → Option (Option V)
  unfolding bucket find_chain
  find m key = Option.map (find_chain key) (bucket m key)

  -- The loop of `insert`: the chain with the entry of the key written, or `none` where the loop comes
  -- to the end of the chain.
  pub assign : ℕ → V → Bool → List (Entry V) → Option (List (Entry V))
  assign key value overwritten [] = none
  assign key value overwritten (e ∷ c) =
      if e.key == key
      then some ((if overwritten then record e { value = value } else e) ∷ c)
      else Option.map (◌∷◌ e) (assign key value overwritten c)

  -- `insert` on the chain of the key: a new entry goes to its end, also to that of an empty chain.
  pub insert_chain : Bool → ℕ → V → Bool → List (Entry V) → Bool × List (Entry V)
  unfolding assign
  insert_chain alloc key value overwritten c = elim (assign key value overwritten c) [
    | some c' ↦ (true, c')
    | none ↦ if alloc then (true, c ++ record { key = key; value = value } ∷ []) else (false, c)
  ]

  -- `table[hash] = c`
  unfoldable pub set_bucket : ChainHashMap V → ℕ → List (Entry V) → ChainHashMap V
  set_bucket m key c = record m { table = set m.table (key % m.bucket_num) c }

  pub insert : Bool → ChainHashMap V → ℕ → V → Bool → Option (Bool × ChainHashMap V)
  unfolding bucket insert_chain set_bucket
  insert alloc m key value overwritten =
      Option.map
        (λ c. let r = insert_chain alloc key value overwritten c in (r.0, set_bucket m key r.1))
        (bucket m key)

  -- The loop of `remove` stops at the entry of the key or at the last one.
  pub remove_chain : ℕ → List (Entry V) → List (Entry V)
  remove_chain key [] = []
  remove_chain key (e ∷ c) = if e.key == key then c else e ∷ remove_chain key c

  pub remove : ChainHashMap V → ℕ → Option (ChainHashMap V)
  unfolding bucket remove_chain set_bucket
  remove m key = Option.map (λ c. set_bucket m key (remove_chain key c)) (bucket m key)

  -- What `destroy` deletes, in its order. It leaves the table as it is.
  pub destroy : ChainHashMap V → List (Entry V)
  destroy m = flatten m.table

  -- `clear`: `destroy`, and every chain is made empty.
  pub clear : ChainHashMap V → List (Entry V) × ChainHashMap V
  unfolding destroy
  clear m = (destroy m, record m { table = replicate m.bucket_num [] })
