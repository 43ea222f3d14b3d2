-- ===== src/Container/ChainHash/Refine.antt =====
-- The table of container/chain_hash.h against a dictionary from keys to values: no sequence of
-- operations tells them apart, and none faults.
use selib.Prelude.{
  ℕ, ◌≡◌, refl, Bool, true, Option, none, some, List, [], ◌∷◌, ◌==◌, if◌then◌else◌, ◌>>=◌, ◌∙◌,
}
use mathlib.Core.Option
use mathlib.Core.Path.{fun_ext}
use selib.Container.ChainHash.{
  ChainHashMap, find, insert_chain, set_bucket, insert, remove_chain, remove, clear,
}
use selib.Container.ChainHash.Chain.{written, insert_chain_status}
use selib.Container.ChainHash.Laws.{
  IsValid, chain, contents, find_lem, insert_lem, remove_lem, insert-IsValid, remove-IsValid,
  clear-IsValid, contents-insert, contents-remove, contents-clear,
}

module _ {ℓ} where
  -- A client's call; `put` says whether memory for a new entry can be had.
  pub data Op (V : Type ℓ) : Type ℓ where
    look : ℕ → Op V
    put : (alloc : Bool) → ℕ → V → (overwritten : Bool) → Op V
    drop : ℕ → Op V
    wipe : Op V

  -- What the call returns.
  pub data Reply (V : Type ℓ) : Type ℓ where
    found : Option V → Reply V
    accepted : Bool → Reply V
    done : Reply V

module _ {ℓ} {V : Type ℓ} where
  unfoldable pub step : ChainHashMap V → Op V → Option (Reply V × ChainHashMap V)
  step m (look k) = Option.map (λ r. (found r, m)) (find m k)
  step m (put alloc k x ow) = Option.map (λ r. (accepted r.0, r.1)) (insert alloc m k x ow)
  step m (drop k) = Option.map (λ m'. (done, m')) (remove m k)
  step m wipe = some (done, (clear m).1)

  unfoldable pub run : ChainHashMap V → List (Op V) → Option (List (Reply V))
  unfolding step
  run m [] = some []
  run m (o ∷ ops) = do (r, m') ← step m o; rs ← run m' ops; some (r ∷ rs)

  -- The dictionary: a new key needs memory, a written one does not.
  pub dict_accepts : (ℕ → Option V) → Bool → ℕ → Bool
  dict_accepts d alloc k = elim (d k) [ none ↦ alloc | some _ ↦ true ]

  pub dict_step : (ℕ → Option V) → Op V → Reply V × (ℕ → Option V)
  dict_step d (look k) = (found (d k), d)
  dict_step d (put alloc k x ow) = (
    accepted (dict_accepts d alloc k),
    λ q. if k == q then (if dict_accepts d alloc k then written ow x (d q) else d q) else d q,
  )
  dict_step d (drop k) = (done, λ q. if k == q then none else d q)
  dict_step d wipe = (done, λ q. none)

  pub dict_run : (ℕ → Option V) → List (Op V) → List (Reply V)
  dict_run d [] = []
  dict_run d (o ∷ ops) = let r = dict_step d o in r.0 ∷ dict_run r.1 ops

  accepts :
      {m : ChainHashMap V} (alloc : Bool) (k : ℕ) (x : V) (ow : Bool)
      → IsValid m
      → (insert_chain alloc k x ow (chain m k)).0 ≡ dict_accepts (contents m) alloc k
  unfolding dict_accepts contents
  accepts {m} alloc k x ow v = insert_chain_status alloc k x ow (chain m k)

  -- One call on a valid table: it does not fault, the table stays valid, and reply and contents are
  -- those of the dictionary.
  step_refines :
      {m : ChainHashMap V} (o : Op V)
      → IsValid m
      → (m' : ChainHashMap V) × (step m o ≡ some ((dict_step (contents m) o).0, m'))
        × IsValid m'
        × (contents m' ≡ (dict_step (contents m) o).1)
  unfolding step dict_step dict_accepts
  step_refines {m} (look k) v = (m, rw (find_lem k v), v, refl)
  step_refines {m} (put alloc k x ow) v = (
    set_bucket m k (insert_chain alloc k x ow (chain m k)).1,
    rw (insert_lem alloc k x ow v, accepts alloc k x ow v),
    insert-IsValid alloc k x ow v,
    fun_ext λ q. contents-insert alloc k x ow q v ∙ rw (accepts alloc k x ow v),
  )
  step_refines {m} (drop k) v = (
    set_bucket m k (remove_chain k (chain m k)),
    rw (remove_lem k v),
    remove-IsValid k v,
    fun_ext λ q. contents-remove k q v,
  )
  step_refines {m} wipe v = ((clear m).1, refl, clear-IsValid v, fun_ext λ q. contents-clear m q)

  -- Every sequence of `find`, `insert`, `remove` and `clear` on a valid table runs without a fault, and
  -- each call returns what the dictionary of the table's contents returns. In it `insert` of a new key
  -- succeeds exactly if memory can be had, `insert` of a present key always succeeds and changes the
  -- value only if it may overwrite, and no call changes the value of another key, but `clear`.
  pub run_refines :
      (ops : List (Op V)) {m : ChainHashMap V}
      → IsValid m
      → run m ops ≡ some (dict_run (contents m) ops)
  unfolding run dict_run
  run_refines [] v = refl
  run_refines (o ∷ ops) {m} v =
      let (m', ran, v', same) = step_refines o v in rw (ran, run_refines ops v', same)
