-- ===== src/Util/ArrayLock/Threads.antt =====
-- One access of one thread of util/array_lock.h: what it may change, while other threads do the same.
use selib.Prelude.{
  ℕ, ◌/◌, ◌%◌, ◌<◌, ◌≡◌, refl, inl, inr, true, false, Option, some, none, ◌==◌, if◌then◌else◌,
  get_or, Bool-cases,
}
use selib.Util.BitArray.{BitArray}
use selib.Util.BitArray.Laws.{IsValid, contents, test_bit_lem}
use selib.Util.ArrayLock.{
  Pc, idle, lock_wait, lock_test, lock_load, lock_cas, critical, unlock_check, unlock_test,
  unlock_load, unlock_cas, failed, next,
}
use selib.Util.ArrayLock.Ops.{try_begin_lem, load_lem, cas_lem}

-- The lock that a thread holds: from the compare-and-swap of `lock` to that of `unlock`.
abbrev pub holds : Pc → Option ℕ
holds (critical p) = some p
holds (unlock_check p) = some p
holds (unlock_test p) = some p
holds (unlock_load p i o) = some p
holds (unlock_cas p i o old) = some p
holds _ = none

-- What a thread's variables satisfy: its position is in range, and it has the place and a byte of it.
-- No thread is in the error return of `unlock`.
abbrev pub Local : ℕ → Pc → Type 0
Local n idle = Unit
Local n (lock_wait p) = p < n
Local n (lock_test p) = p < n
Local n (lock_load p i o) = (p < n) × (i ≡ p / 8) × (o ≡ p % 8)
Local n (lock_cas p i o old) = (p < n) × (i ≡ p / 8) × (o ≡ p % 8) × (old < 256)
Local n (critical p) = p < n
Local n (unlock_check p) = p < n
Local n (unlock_test p) = p < n
Local n (unlock_load p i o) = (p < n) × (i ≡ p / 8) × (o ≡ p % 8)
Local n (unlock_cas p i o old) = (p < n) × (i ≡ p / 8) × (o ≡ p % 8) × (old < 256)
Local n (failed p) = ⊥

-- The effect of an access: none on the bytes, or the thread takes a lock whose bit was not set, or it
-- gives up its lock.
pub data Effect (b b' : BitArray) (pc pc' : Pc) : Type 0 where
  quiet : b' ≡ b → holds pc' ≡ holds pc → Effect b b' pc pc'
  take :
      (p : ℕ)
      → holds pc ≡ none
      → holds pc' ≡ some p
      → contents b p ≡ false
      → ((q : ℕ) → contents b' q ≡ (if p == q then true else contents b q))
      → Effect b b' pc pc'
  release :
      (p : ℕ)
      → holds pc ≡ some p
      → holds pc' ≡ none
      → ((q : ℕ) → contents b' q ≡ (if p == q then false else contents b q))
      → Effect b b' pc pc'

-- What an access of a thread that stands at `pc` comes to.
abbrev pub Access : BitArray → Pc → Type 0
Access b pc =
    (b' : BitArray) × (pc' : Pc) × (next b pc ≡ some (b', pc'))
    × IsValid b'
    × (b'.buf_len ≡ b.buf_len)
    × Local b.buf_len pc'
    × Effect b b' pc pc'

-- A thread whose own lock's bit is set makes its access without a fault, and comes to no error return.
pub next_lem :
    {b : BitArray} (pc : Pc)
    → IsValid b
    → Local b.buf_len pc
    → ((p : ℕ) → holds pc ≡ some p → contents b p ≡ true)
    → Access b pc
unfolding next
next_lem {b} idle v l own = (b, idle, refl, v, refl, tt, quiet refl refl)
next_lem {b} (lock_wait p) v l own = elim (Bool-cases (contents b p)) [
  | inl e ↦ (b, lock_wait p, rw (test_bit_lem p v, e), v, refl, l, quiet refl refl)
  | inr e ↦ (b, lock_test p, rw (test_bit_lem p v, e), v, refl, l, quiet refl refl)
]
next_lem {b} (lock_test p) v l own = elim (Bool-cases (contents b p)) [
  | inl e ↦ (b, lock_wait p, rw (try_begin_lem p v l true, e), v, refl, l, quiet refl refl)
  | inr e ↦ (
    b,
    lock_load p (p / 8) (p % 8),
    rw (try_begin_lem p v l true, e),
    v,
    refl,
    (l, refl, refl),
    quiet refl refl,
  )
]
next_lem {b} (lock_load p i o) v (l, e, f) own = (
  b,
  lock_cas p i o (get_or b.bits_buf (p / 8) 0),
  rw (e, load_lem p v l),
  v,
  refl,
  (l, e, f, v.bytes (p / 8)),
  quiet refl refl,
)
next_lem {b} (lock_cas p i o old) v (l, e, f, small) own = elim (cas_lem p v l true old small) [
  | inl lost ↦ (b, lock_wait p, rw (e, f, lost), v, refl, l, quiet refl refl)
  | inr (b', won, v', same, was, w) ↦
      (b', critical p, rw (e, f, won), v', same, l, take p refl refl (was refl) w)
]
next_lem {b} (critical p) v l own = (b, critical p, refl, v, refl, l, quiet refl refl)
next_lem {b} (unlock_check p) v l own =
    (b, unlock_test p, rw (test_bit_lem p v, own p refl), v, refl, l, quiet refl refl)
next_lem {b} (unlock_test p) v l own = (
  b,
  unlock_load p (p / 8) (p % 8),
  rw (try_begin_lem p v l false, own p refl),
  v,
  refl,
  (l, refl, refl),
  quiet refl refl,
)
next_lem {b} (unlock_load p i o) v (l, e, f) own = (
  b,
  unlock_cas p i o (get_or b.bits_buf (p / 8) 0),
  rw (e, load_lem p v l),
  v,
  refl,
  (l, e, f, v.bytes (p / 8)),
  quiet refl refl,
)
next_lem {b} (unlock_cas p i o old) v (l, e, f, small) own = elim (cas_lem p v l false old small) [
  | inl lost ↦ (b, unlock_check p, rw (e, f, lost), v, refl, l, quiet refl refl)
  | inr (b', won, v', same, was, w) ↦
      (b', idle, rw (e, f, won), v', same, tt, release p refl refl w)
]
next_lem {b} (failed p) v l own = absurd l
