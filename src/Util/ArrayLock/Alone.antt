-- ===== src/Util/ArrayLock/Alone.antt =====
-- `lock` and `unlock` of util/array_lock.h, where one thread runs alone for a while.
use selib.Prelude.{
  ℕ, zero, suc, ◌/◌, ◌<◌, ◌≡◌, refl, inl, inr, true, false, Option, some, get_or, if◌then◌else◌,
  ◌>>=◌, ◌==◌,
}
use selib.Util.BitArray.{BitArray}
use selib.Util.BitArray.Laws.{IsValid, contents, test_bit_lem}
use selib.Util.ArrayLock.{Pc, idle, lock_wait, critical, unlock_check, next}
use selib.Util.ArrayLock.Ops.{try_begin_lem, load_lem, cas_lem, cas_wins}

-- `n` accesses of a thread in a row.
pub run_alone : ℕ → BitArray → Pc → Option (BitArray × Pc)
run_alone zero b pc = some (b, pc)
run_alone (suc n) b pc = do (b', pc') ← next b pc; run_alone n b' pc'

-- While the bit is set, a thread in `lock` waits, however long it runs, and changes nothing.
pub lock_waits :
    (n : ℕ) {b : BitArray} (p : ℕ)
    → IsValid b
    → contents b p ≡ true
    → run_alone n b (lock_wait p) ≡ some (b, lock_wait p)
unfolding run_alone next
lock_waits zero p v e = refl
lock_waits (suc n) p v e = rw (test_bit_lem p v, e, lock_waits n p v e)

-- Where the bit is not set, four accesses take the lock: its bit is set, and no other bit changes.
pub lock_takes :
    {b : BitArray} (p : ℕ)
    → IsValid b
    → p < b.buf_len
    → contents b p ≡ false
    → (b' : BitArray) × (run_alone 4 b (lock_wait p) ≡ some (b', critical p))
      × ((q : ℕ) → contents b' q ≡ (if p == q then true else contents b q))
unfolding run_alone next
lock_takes {b} p v h e = elim (cas_lem p v h true (get_or b.bits_buf (p / 8) 0) (v.bytes (p / 8))) [
  | inl lost ↦ absurd (cas_wins p true v h (rw e) lost)
  | inr (b', won, _, _, _, w) ↦
      (b', rw (test_bit_lem p v, e, try_begin_lem p v h true, e, load_lem p v h, won), w)
]

-- Where the bit is set, four accesses of `unlock` give the lock up: its bit is cleared, and no other
-- changes.
pub unlock_releases :
    {b : BitArray} (p : ℕ)
    → IsValid b
    → p < b.buf_len
    → contents b p ≡ true
    → (b' : BitArray) × (run_alone 4 b (unlock_check p) ≡ some (b', idle))
      × ((q : ℕ) → contents b' q ≡ (if p == q then false else contents b q))
unfolding run_alone next
unlock_releases {b} p v h e =
    elim (cas_lem p v h false (get_or b.bits_buf (p / 8) 0) (v.bytes (p / 8))) [
      | inl lost ↦ absurd (cas_wins p false v h (rw e) lost)
      | inr (b', won, _, _, _, w) ↦
          (b', rw (test_bit_lem p v, e, try_begin_lem p v h false, e, load_lem p v h, won), w)
    ]
