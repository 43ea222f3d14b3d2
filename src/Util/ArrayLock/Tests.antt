-- ===== src/Util/ArrayLock/Tests.antt =====
-- Runs of util/array_lock.h, and its theorems at concrete inputs.
use selib.Prelude.{
  ℕ, ◌≡◌, ◌≢◌, refl, true, false, not, none, some, [], ◌∷◌, ◌==◌, if◌then◌else◌, arith,
}
use mathlib.Core.Bool.{beq}
use mathlib.Core.Path.{subst, ap, sym, ◌∙◌}
use mathlib.Core.Option.{some-injective}
use selib.Util.BitArray.{
  BitArray, create, test_bit, get_raw_bit, clear_mask, bit_mask, get_position,
}
use selib.Util.BitArray.Laws.{IsValid, contents, create_lem}
use selib.Util.ArrayLock.{
  idle, lock_wait, lock_test, lock_load, lock_cas, critical, unlock_check, failed, try_op,
  try_begin, load, cas, cas_old, cas_new, next,
}
use selib.Util.ArrayLock.Ops.{try_op_lem, try_op_out}
use selib.Util.ArrayLock.Exclusion.{
  System, call_lock, access, Reach, here, later, start, update, mutual_exclusion, no_failure,
}
use selib.Util.ArrayLock.Alone.{run_alone, lock_takes, unlock_releases}

abbrev locks : BitArray
locks = record {
  bits_buf = 0 ∷ 0 ∷ [];
  pow_of_two = 3;
  offset_mask = 7;
  align_len = 7;
  buf_len = 10;
}

-- Lock 9 is taken.
abbrev taken : BitArray
taken = record locks { bits_buf = 0 ∷ 64 ∷ [] }

created : create true 10 ≡ some locks
unfolding create
created = refl

locks-IsValid : IsValid locks
locks-IsValid = (create_lem 10 (omega arith) created).0

take-nine : try_op locks 9 true ≡ some (true, taken)
unfolding try_op try_begin test_bit get_raw_bit load cas cas_old cas_new clear_mask bit_mask
    get_position
take-nine = refl

taken-facts :
    IsValid taken × ((q : ℕ) → contents taken q ≡ (if 9 == q then true else contents locks q))
taken-facts =
    let (b', e, v, _, w) = try_op_lem 9 true locks-IsValid (omega arith) in
    subst (λ b. IsValid b × ((q : ℕ) → contents b q ≡ (if 9 == q then true else contents locks q)))
      (ap (λ r. r.1) (some-injective _ _ (sym e ∙ take-nine))) (v, w)

at_nine : contents locks 9 ≡ false
at_nine = (create_lem 10 (omega arith) created).2 9

abbrev inside : System
inside = record {
  mem = taken;
  pc =
      update
        (update
          (update (update (update (λ _. idle) 0 (lock_wait 9)) 0 (lock_test 9)) 0 (lock_load 9 1 1))
          0 (lock_cas 9 1 1 0))
        0 (critical 9);
}

inside-Reach : Reach (start locks) inside
unfolding next start test_bit get_raw_bit try_begin load cas cas_old cas_new clear_mask bit_mask
    get_position
inside-Reach =
    later
      (later
        (later
          (later (later here (call_lock _ 0 9 refl (omega arith)))
            (access _ 0 locks (lock_test 9) refl))
          (access _ 0 locks (lock_load 9 1 1) refl))
        (access _ 0 locks (lock_cas 9 1 1 0) refl))
      (access _ 0 taken (critical 9) refl)

mutual_exclusion_example : ◌≡◌ {A = ℕ} 0 0
mutual_exclusion_example = mutual_exclusion 10 0 0 9 (omega arith) created inside-Reach refl refl

no_failure_example : (next taken (critical 9) ≢ none) × ((p : ℕ) → critical 9 ≢ failed p)
no_failure_example = no_failure 10 0 (omega arith) created inside-Reach

try_op_lem_example :
    (b' : BitArray) × (try_op locks 9 true ≡ some (not (beq (contents locks 9) true), b'))
    × IsValid b'
    × (b'.buf_len ≡ 10)
    × ((q : ℕ) → contents b' q ≡ (if 9 == q then true else contents locks q))
try_op_lem_example = try_op_lem 9 true locks-IsValid (omega arith)

try_op_out_example : (try_op locks 12 true ≡ none) × (try_op locks 12 false ≡ some (false, locks))
try_op_out_example = try_op_out 12 locks-IsValid (omega arith)

lock_takes_example :
    (b' : BitArray) × (run_alone 4 locks (lock_wait 9) ≡ some (b', critical 9))
    × ((q : ℕ) → contents b' q ≡ (if 9 == q then true else contents locks q))
lock_takes_example = lock_takes 9 locks-IsValid (omega arith) at_nine

unlock_releases_example :
    (b' : BitArray) × (run_alone 4 taken (unlock_check 9) ≡ some (b', idle))
    × ((q : ℕ) → contents b' q ≡ (if 9 == q then false else contents taken q))
unlock_releases_example = unlock_releases 9 taken-facts.0 (omega arith) (taken-facts.1 9)
