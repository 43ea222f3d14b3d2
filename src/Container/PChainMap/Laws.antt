-- ===== src/Container/PChainMap/Laws.antt =====
-- container/pchain_map.h: a thread by itself meets free locks only, and the map is a dictionary.
use selib.Prelude.{
  ℕ, ◌%◌, ◌<◌, ◌≤◌, ◌^◌, ◌≡◌, ◌==◌, refl, ap, ◌∙◌, Bool, true, false, Option, some, List, [], ◌∷◌,
  map, if◌then◌else◌, ◌>>=◌, arith, ne→==,
}
use mathlib.Core.Option.{some-injective}
use mathlib.Core.Path.{subst}
use native.Mathlib.Nat.{mod-lt}
use selib.Util.BitArray.{BitArray}
use selib.Util.BitArray.Laws.{create_lem}
use selib.Util.BitArray.Laws as Bits
use selib.Util.BitArray
use selib.Util.ArrayLock.Ops.{try_op_lem}
use selib.Container.ChainHash.{ChainHashMap}
use selib.Container.ChainHash
use selib.Container.ChainHash.Laws as Table
use selib.Container.ChainHash.Refine.{
  Op, Reply, step, look, put, found, accepted, run, dict_run, run_refines,
}
use selib.Container.PChainMap.{
  PChainMap, lock, unlock, create, hold, with_lock, insert, find_locked, find,
}

-- All locks of an array are free.
pub IsFree : BitArray → Type 0
IsFree b = Bits.IsValid b × ((q : ℕ) → Bits.contents b q ≡ false)

only :
    (p q : ℕ) (x : Bool)
    → x ≡ false
    → (if p == q then false else if p == q then true else x) ≡ false
only p q x e = ground (arith, e)

-- A free lock is taken, and is free again after it is given back.
hold_lem :
    (b : BitArray) (p : ℕ)
    → IsFree b
    → p < b.buf_len
    → (held : BitArray) × (free : BitArray) × (lock b p ≡ some held)
      × (unlock held p ≡ some free)
      × IsFree free
      × (free.buf_len ≡ b.buf_len)
unfolding IsFree lock unlock
hold_lem b p (v, f) l =
    let (held, e, v1, n1, c1) = try_op_lem p true v l in
    let (free, g, v2, n2, c2) = try_op_lem p false v1 (omega arith) in
    (
      held,
      free,
      rw (e, f p),
      rw g,
      (
        v2,
        λ q.
            c2 q
            ∙ ap (λ x. if p == q then false else x) (c1 q)
            ∙ only p q (Bits.contents b q) (f q),
      ),
      n2 ∙ n1,
    )

-- A call of a client, with whether memory for a new entry can be had.
pub data MapOp {ℓ} (V : Type ℓ) : Type ℓ where
  ask : ℕ → MapOp V
  give : (alloc : Bool) → ℕ → V → MapOp V

module _ {ℓ} {V : Type ℓ} where
  -- The map between two calls: a valid table, and a free lock for each of its buckets.
  pub IsQuiet : PChainMap V → Type 0
  IsQuiet m =
      Table.IsValid m.dict
      × (m.dict.bucket_num ≡ m.bucket_num)
      × IsFree m.array_lock
      × (m.array_lock.buf_len ≡ m.bucket_num)

  with_lock_lem {κ} :
      {R : Type κ} (key : ℕ) (body : ChainHashMap V → Option (R × ChainHashMap V)) (m : PChainMap V)
      (r : R) (d : ChainHashMap V)
      → IsQuiet m
      → body m.dict ≡ some (r, d)
      → Table.IsValid d
      → d.bucket_num ≡ m.bucket_num
      → (m' : PChainMap V) × (with_lock key body m ≡ some (r, m')) × IsQuiet m' × (m'.dict ≡ d)
  unfolding IsQuiet with_lock hold
  with_lock_lem key body m r d (v, n, f, l) e w k =
      let pos : 0 < m.bucket_num = omega (arith, v.pos, n) in
      let small : key % m.bucket_num < m.array_lock.buf_len = omega (arith, mod-lt key pos, l) in
      let (held, free, a, b, c, g) = hold_lem m.array_lock (key % m.bucket_num) f small in
      (
        record m { dict = d; array_lock = free },
        rw (ne→== m.bucket_num 0 (λ z. omega arith), a, e, b),
        (w, k, c, g ∙ l),
        refl,
      )

  find_lem :
      (m : PChainMap V) (key : ℕ)
      → IsQuiet m
      → (m' : PChainMap V) × (find m key true ≡ some (Table.contents m.dict key, m'))
        × IsQuiet m'
        × (m'.dict ≡ m.dict)
  unfolding find find_locked IsQuiet
  find_lem m key q =
      with_lock_lem key (λ d. ChainHash.find d key >>= λ v. some (v, d)) m
        (Table.contents m.dict key) m.dict q (rw (Table.find_lem key q.0)) q.0 q.1

  insert_lem :
      (alloc : Bool) (m : PChainMap V) (key : ℕ) (x : V)
      → IsQuiet m
      → let c = ChainHash.insert_chain alloc key x true (Table.chain m.dict key) in
        (m' : PChainMap V) × (insert alloc m key (some x) ≡ some (c.0, m'))
        × IsQuiet m'
        × (m'.dict ≡ ChainHash.set_bucket m.dict key c.1)
  unfolding insert IsQuiet
  insert_lem alloc m key x q =
      with_lock_lem key (λ d. ChainHash.insert alloc d key x true) m _ _ q
        (Table.insert_lem alloc key x true q.0) (Table.insert-IsValid alloc key x true q.0)
        (unfold ChainHash.set_bucket in q.1)

  -- The same call on the table inside.
  pub on_table : MapOp V → Op V
  on_table (ask key) = look key
  on_table (give alloc key x) = put alloc key x true

  pub map_step : PChainMap V → MapOp V → Option (Reply V × PChainMap V)
  map_step m (ask key) = find m key true >>= λ r. some (found r.0, r.1)
  map_step m (give alloc key x) = insert alloc m key (some x) >>= λ r. some (accepted r.0, r.1)

  pub map_run : PChainMap V → List (MapOp V) → Option (List (Reply V))
  unfolding map_step
  map_run m [] = some []
  map_run m (o ∷ os) = do r ← map_step m o; rs ← map_run r.1 os; some (r.0 ∷ rs)

  map_run_lem :
      (os : List (MapOp V)) (m : PChainMap V)
      → IsQuiet m
      → map_run m os ≡ run m.dict (map on_table os)
  unfolding map_run map_step on_table run step IsQuiet
  map_run_lem [] m q = refl
  map_run_lem (ask key ∷ os) m q =
      let (m', e, q', d) = find_lem m key q in
      rw (e, Table.find_lem key q.0, map_run_lem os m' q', d)
  map_run_lem (give alloc key x ∷ os) m q =
      let (m', e, q', d) = insert_lem alloc m key x q in
      rw (e, Table.insert_lem alloc key x true q.0, map_run_lem os m' q', d)

  -- On a map with a free lock for each bucket the calls of `find` and `insert` of one thread never fault and
  -- never wait for ever, whatever their order, and return what they return on a dictionary from keys to
  -- values.
  pub map_refines :
      (os : List (MapOp V)) (m : PChainMap V)
      → IsQuiet m
      → map_run m os ≡ some (dict_run (Table.contents m.dict) (map on_table os))
  unfolding IsQuiet
  map_refines os m q = map_run_lem os m q ∙ run_refines (map on_table os) q.0

  -- A new map of some buckets, 2 ^ 31 at most, is such a map.
  pub create-IsQuiet :
      (n : ℕ) (locks : BitArray) (m : PChainMap V)
      → 0 < n
      → n ≤ 2 ^ 31
      → create true true locks n ≡ some m
      → IsQuiet m
  unfolding create IsQuiet IsFree ChainHash.create BitArray.create
  create-IsQuiet n locks m pos small e =
      let (v, l, f) = create_lem n (omega arith) refl in
      subst IsQuiet (some-injective _ _ e) (Table.create-IsValid n pos small refl, refl, (v, f), l)
