-- ===== src/Container/PChainMap.antt =====
-- container/pchain_map.h: `PChainMap`, the calls of one thread that no other one interrupts. A `none` outside
-- is a fault, or a wait that never ends: a lock that is not free when nobody else runs stays so.
pub mod Laws
mod Tests
use selib.Prelude.{ℕ, ◌%◌, ◌==◌, Bool, true, false, Option, none, some, if◌then◌else◌, ◌>>=◌}
use selib.Util.BitArray.{BitArray}
use selib.Util.BitArray
use selib.Util.ArrayLock.{try_op}
use selib.Container.ChainHash.{ChainHashMap}
use selib.Container.ChainHash

-- `ArrayLock::lock`, for a thread that runs alone: it comes to its end in the first round or never.
pub lock : BitArray → ℕ → Option BitArray
lock b pos = try_op b pos true >>= λ r. if r.0 then some r.1 else none

-- `ArrayLock::unlock`, likewise; what it returns is dropped.
pub unlock : BitArray → ℕ → Option BitArray
unlock b pos = try_op b pos false >>= λ r. some r.1

-- `PChainMap`
pub record PChainMap {ℓ} (V : Type ℓ) : Type ℓ where
  pub dict : ChainHashMap V
  pub array_lock : BitArray
  pub bucket_num : ℕ

module _ {ℓ} {V : Type ℓ} where
  -- `create`, where `-1` is `none`. That the locks cannot be allocated is not tested: `locks` is what is
  -- there then.
  pub create : Bool → Bool → BitArray → ℕ → Option (PChainMap V)
  create alloc_locks alloc locks bucket_num = do
    dict ← ChainHash.create alloc bucket_num
    some (record {
      dict = dict;
      array_lock = elim (BitArray.create alloc_locks bucket_num) [ none ↦ locks | some b ↦ b ];
      bucket_num = bucket_num;
    })

  -- The body of an operation under a lock, taken and given back by `AutoLock`.
  pub hold {κ} :
      {R : Type κ}
      → ℕ
      → (ChainHashMap V → Option (R × ChainHashMap V))
      → PChainMap V
      → Option (R × PChainMap V)
  unfolding lock unlock
  hold pos body m = do
    held ← lock m.array_lock pos
    r ← body m.dict
    free ← unlock held pos
    some (r.0, record m { dict = r.1; array_lock = free })

  -- The same for the bucket of a key; without buckets the key is reduced modulo zero.
  pub with_lock {κ} :
      {R : Type κ}
      → ℕ
      → (ChainHashMap V → Option (R × ChainHashMap V))
      → PChainMap V
      → Option (R × PChainMap V)
  unfolding hold
  with_lock key body m = if m.bucket_num == 0 then none else hold (key % m.bucket_num) body m

  -- `insert`; a null pointer to the value is `none`.
  pub insert : Bool → PChainMap V → ℕ → Option V → Option (Bool × PChainMap V)
  unfolding with_lock
  insert alloc m key none = none
  insert alloc m key (some x) = with_lock key (λ d. ChainHash.insert alloc d key x true) m

  -- `_find`, with the value that it copies to `*res`.
  pub find_locked : PChainMap V → ℕ → Option (Option V × PChainMap V)
  unfolding with_lock
  find_locked m key = with_lock key (λ d. ChainHash.find d key >>= λ v. some (v, d)) m

  -- `find`; `has_res` says whether `res` is not null.
  pub find : PChainMap V → ℕ → Bool → Option (Option V × PChainMap V)
  unfolding find_locked
  find m key has_res = if has_res then find_locked m key else some (none, m)
