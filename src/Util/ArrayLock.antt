-- ===== src/Util/ArrayLock.antt =====
-- util/array_lock.h: `ArrayLock`, a spin lock for each bit of a `BitArray`. A `none` is a fault, such as the
-- read through the null pointer that `test_bit` leaves out of range.
pub mod Ops
pub mod Threads
pub mod Exclusion
pub mod Alone
mod Tests
use Prim.Native.Nat.{bit_and, bit_or}
use selib.Prelude.{
  ℕ, Bool, true, false, Option, none, some, ◌==◌, if◌then◌else◌, ◌>>=◌, get_elem?, set,
}
use mathlib.Core.Bool.{beq}
use selib.Util.BitArray.{BitArray, bit_mask, clear_mask, test_bit}

-- The first part of `try_op`: `none` inside where the bit is as asked for, and `try_op` returns false;
-- else the place of the bit. `*lock` is read next, so a null `lock` faults.
pub try_begin : BitArray → ℕ → Bool → Option (Option (ℕ × ℕ))
try_begin b pos set_it = do
  (ret, out) ← test_bit b pos
  if beq ret set_it then some none else elim out [ none ↦ none | some place ↦ some (some place) ]

-- `uint8_t old = *lock`
pub load : BitArray → ℕ → Option ℕ
load b idx = get_elem? b.bits_buf idx

-- `old` and `expected`, as they go to the compare-and-swap.
pub cas_old : Bool → ℕ → ℕ → ℕ
cas_old set_it old offset = if set_it then bit_and old (clear_mask 7 offset) else old

pub cas_new : Bool → ℕ → ℕ → ℕ
cas_new set_it old offset =
    if set_it then bit_or old (bit_mask 7 offset) else bit_and old (clear_mask 7 offset)

-- `__sync_bool_compare_and_swap`
pub cas : BitArray → ℕ → ℕ → ℕ → Option (Bool × BitArray)
cas b idx old new = do
  current ← get_elem? b.bits_buf idx
  if current == old
      then some (true, record b { bits_buf = set b.bits_buf idx new })
      else some (false, b)

-- `try_op`, where no other thread comes between.
pub try_op : BitArray → ℕ → Bool → Option (Bool × BitArray)
try_op b pos set_it = do
  place ← try_begin b pos set_it
  elim place [
    | none ↦ some (false, b)
    | some (idx, offset) ↦ do
      old ← load b idx
      cas b idx (cas_old set_it old offset) (cas_new set_it old offset)
  ]

-- Where a thread stands: in `lock`, in `unlock`, or in the client's code between them. `failed` is the
-- error return of `unlock`.
pub data Pc : Type 0 where
  idle : Pc
  lock_wait : (pos : ℕ) → Pc
  lock_test : (pos : ℕ) → Pc
  lock_load : (pos idx offset : ℕ) → Pc
  lock_cas : (pos idx offset old : ℕ) → Pc
  critical : (pos : ℕ) → Pc
  unlock_check : (pos : ℕ) → Pc
  unlock_test : (pos : ℕ) → Pc
  unlock_load : (pos idx offset : ℕ) → Pc
  unlock_cas : (pos idx offset old : ℕ) → Pc
  failed : (pos : ℕ) → Pc

-- One access of a thread to the shared bytes, in `lock` and in `unlock`.
pub next : BitArray → Pc → Option (BitArray × Pc)
next b idle = some (b, idle)
next b (lock_wait pos) = do
  (held, _) ← test_bit b pos
  some (b, if held then lock_wait pos else lock_test pos)
next b (lock_test pos) = do
  place ← try_begin b pos true
  some (b, elim place [ none ↦ lock_wait pos | some (idx, offset) ↦ lock_load pos idx offset ])
next b (lock_load pos idx offset) = do old ← load b idx; some (b, lock_cas pos idx offset old)
next b (lock_cas pos idx offset old) = do
  (won, b') ← cas b idx (cas_old true old offset) (cas_new true old offset)
  some (b', if won then critical pos else lock_wait pos)
next b (critical pos) = some (b, critical pos)
next b (unlock_check pos) = do
  (held, _) ← test_bit b pos
  some (b, if held then unlock_test pos else failed pos)
next b (unlock_test pos) = do
  place ← try_begin b pos false
  some (b, elim place [ none ↦ unlock_check pos | some (idx, offset) ↦ unlock_load pos idx offset ])
next b (unlock_load pos idx offset) = do old ← load b idx; some (b, unlock_cas pos idx offset old)
next b (unlock_cas pos idx offset old) = do
  (won, b') ← cas b idx (cas_old false old offset) (cas_new false old offset)
  some (b', if won then idle else unlock_check pos)
next b (failed pos) = some (b, failed pos)
