-- ===== src/Framework/PoolMgr.antt =====
-- framework/shining_pool.h: `PoolMgr`, on two stacks of container/resource_stack.h. Elements have numbers as
-- addresses, and an outer `none` is a call through a null pointer. Thread creation and the work on an element,
-- which a subclass defines, are not in the repository.
pub mod Pools
pub mod System
pub mod Calls
pub mod Forced
pub mod Workers
pub mod Safety
mod Tests
use selib.Prelude.{
  ℕ, zero, suc, ◌-◌, Bool, true, false, ◌&&◌, Option, none, some, ltb, if◌then◌else◌, ◌>>=◌,
}
use selib.Container.ResourceStack
use selib.Container.ResourceStack.{Lifo, ResourceStack, produce, force_pop}

-- `PoolMgr`; of `_thread_ids` only whether it is null. The two sizes are not negative.
pub record PoolMgr (S : Type 0) : Type 0 where
  pub producer_pool : Option (ResourceStack S)
  pub consumer_pool : Option (ResourceStack S)
  pub thread_ids : Bool
  pub th_size : ℕ
  pub alive : Bool
  pub p_size : ℕ

-- Where a thread stands in `thread_fun`.
pub data Worker : Type 0 where
  begin_thread : Worker
  loop_test : Worker
  take : Worker
  handle : ℕ → Worker
  give : ℕ → Worker
  ended : Worker

module _ {S : Type 0} where
  -- The constructor.
  abbrev pub new_pool : PoolMgr S
  new_pool = record {
    producer_pool = none;
    consumer_pool = none;
    thread_ids = false;
    th_size = 0;
    alive = false;
    p_size = 0;
  }

  -- `start`, whose `return 0` is `false`; `stop`.
  pub start : PoolMgr S → Bool × PoolMgr S
  start pm = (false, record pm { alive = true })

  pub stop : PoolMgr S → Bool × PoolMgr S
  stop pm = (true, record pm { alive = false })

module _ {S : Type 0} (lifo : Lifo S) where
  -- `init`: each of the three allocations succeeds or not, and those of the holders by `alloc`.
  pub init : Bool → Bool → Bool → (ℕ → Bool) → ℕ → ℕ → PoolMgr S → Bool × PoolMgr S
  init new_producer new_consumer new_ids alloc thread_size pool_size pm =
      let pm0 : PoolMgr S = record pm {
        th_size = thread_size;
        p_size = pool_size;
        producer_pool = none;
      } in
      let pm1 : PoolMgr S = record pm0 {
        producer_pool = some (ResourceStack.fresh lifo);
        consumer_pool = none;
      } in
      let made = ResourceStack.create lifo alloc pool_size (ResourceStack.fresh lifo) in
      let pm2 : PoolMgr S = record pm1 {
        consumer_pool = some made.1;
        thread_ids = made.0 && new_ids;
      } in
      if new_producer
      then if new_consumer then (made.0 && new_ids, pm2) else (false, pm1)
      else (false, pm0)

  pub push : Option ℕ → PoolMgr S → Option (Bool × PoolMgr S)
  push x pm = do
    r ← pm.consumer_pool
    (b, r') ← some (ResourceStack.push lifo x r)
    some (b, record pm { consumer_pool = some r' })

  -- The first call of `pop`, and whether `force_pop` follows.
  pub pop_first : PoolMgr S → Option (Option ℕ × Bool × PoolMgr S)
  pop_first pm = do
    r ← pm.producer_pool
    (p, r') ← some (ResourceStack.pop lifo r)
    some (
      p,
      elim p [ none ↦ ltb 0 pm.p_size | some x ↦ false ],
      record pm { producer_pool = some r' },
    )

  -- The `force_pop` of `pop`; `made` is what `new` gives, and `alloc` is about the holder.
  pub pop_forced : Option ℕ → Bool → PoolMgr S → Option (Option ℕ × PoolMgr S)
  pop_forced made alloc pm = do
    r ← pm.producer_pool
    (p, r') ← some (force_pop lifo made alloc r)
    some (p, record pm { producer_pool = some r'; p_size = pm.p_size - 1 })

  pub pop : Option ℕ → Bool → PoolMgr S → Option (Option ℕ × PoolMgr S)
  unfolding pop_first pop_forced
  pop made alloc pm = do
    (p, more, pm1) ← pop_first pm
    if more then pop_forced made alloc pm1 else some (p, pm1)

  -- `thread_fun`, a call at a time; `data_ok` says whether `make_thread_data` gave something.
  pub work : Bool → PoolMgr S → Worker → Option (PoolMgr S × Worker)
  work data_ok pm begin_thread = some (pm, if data_ok then loop_test else ended)
  work data_ok pm loop_test = some (pm, if pm.alive then take else ended)
  work data_ok pm take = do
    r ← pm.consumer_pool
    (p, r') ← some (ResourceStack.pop lifo r)
    some (record pm { consumer_pool = some r' }, elim p [ none ↦ loop_test | some x ↦ handle x ])
  work data_ok pm (handle x) = some (pm, give x)
  work data_ok pm (give x) = do
    r ← pm.producer_pool
    (b, r') ← some (ResourceStack.push lifo (some x) r)
    some (record pm { producer_pool = some r' }, loop_test)
  work data_ok pm ended = some (pm, ended)
