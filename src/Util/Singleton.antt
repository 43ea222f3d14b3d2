-- ===== src/Util/Singleton.antt =====
-- util/singleton.h: `ProcessSingleton` with the lock of util/autolock.h, one access to the shared members at a
-- time. Pointers are Options of numbers, `none` the null pointer; each `new` succeeds or not by a Boolean.
pub mod Local
pub mod Access
pub mod Safety
pub mod Later
mod Tests
use selib.Prelude.{ℕ, ◌+◌, Bool, true, false, Option, none, some, if◌then◌else◌}

-- The static members, and how many objects were made and how often `new` failed.
pub record Shared : Type 0 where
  pub instance_ptr : Option ℕ
  pub mutex : Option ℕ
  pub made : ℕ
  pub failed : ℕ

-- Where a thread stands in `get_instance`, with the places of the two tests, and in `bind`.
pub data Pc : Type 0 where
  idle : Pc
  outer_test : Pc
  lock_wait : Pc
  inner_test : Pc
  make : Pc
  assign : Option ℕ → Pc
  unlock_own : Pc
  read_back : Pc
  returned : Option ℕ → Pc
  bind_wait : Option ℕ → Pc
  bind_test : Option ℕ → Pc
  bind_assign : Option ℕ → Pc
  bind_unlock : Pc

-- `pthread_mutex_lock` of a thread: it waits, or has the lock and goes on.
pub acquire : ℕ → Shared → Pc → Pc → Shared × Pc
acquire me s waiting inside = elim s.mutex [
  | none ↦ (record s { mutex = some me }, inside)
  | some other ↦ (s, waiting)
]

-- `_instance == NULL`
pub choose : Option ℕ → Pc → Pc → Pc
choose none null other = null
choose (some p) null other = other

-- The next access of a thread.
pub next : ℕ → Bool → Shared → Pc → Shared × Pc
unfolding acquire choose
next me new_ok s idle = (s, idle)
next me new_ok s outer_test = (s, choose s.instance_ptr lock_wait read_back)
next me new_ok s lock_wait = acquire me s lock_wait inner_test
next me new_ok s inner_test = (s, choose s.instance_ptr make unlock_own)
next me true s make = (record s { made = s.made + 1 }, assign (some s.made))
next me false s make = (record s { failed = s.failed + 1 }, assign none)
next me new_ok s (assign p) = (record s { instance_ptr = p }, unlock_own)
next me new_ok s unlock_own = (record s { mutex = none }, read_back)
next me new_ok s read_back = (s, returned s.instance_ptr)
next me new_ok s (returned p) = (s, returned p)
next me new_ok s (bind_wait inst) = acquire me s (bind_wait inst) (bind_test inst)
next me new_ok s (bind_test inst) = (s, choose s.instance_ptr (bind_assign inst) bind_unlock)
next me new_ok s (bind_assign inst) = (record s { instance_ptr = inst }, bind_unlock)
next me new_ok s bind_unlock = (record s { mutex = none }, idle)
