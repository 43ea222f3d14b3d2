-- ===== src/Util/Singleton/Local.antt =====
-- util/singleton.h: what holds where a thread stands, and stays while others make their accesses.
use selib.Prelude.{ℕ, ◌≤◌, ◌≡◌, ◌≢◌, inl, inr, ◌⊎◌, Option, none, some, arith}
use selib.Util.Singleton.{
  Shared, Pc, idle, outer_test, lock_wait, inner_test, make, assign, unlock_own, read_back,
  returned, bind_wait, bind_test, bind_assign, bind_unlock,
}

-- There is an instance, or `new` has failed.
abbrev pub Served : Shared → Type 0
Served s = ((p : ℕ) × (s.instance_ptr ≡ some p)) ⊎ (1 ≤ s.failed)

-- The number of objects that an assignment brings.
abbrev count_of : Option ℕ → ℕ
count_of none = 0
count_of (some p) = 1

-- What holds where a thread stands. One that is between the lock and the unlock has the mutex.
abbrev pub Local : Shared → ℕ → Pc → Type 0
Local s i inner_test = s.mutex ≡ some i
Local s i make = (s.mutex ≡ some i) × (s.instance_ptr ≡ none) × (s.made ≡ 0)
Local s i (assign p) =
    (s.mutex ≡ some i)
    × (s.instance_ptr ≡ none)
    × (s.made ≡ count_of p)
    × ((p ≡ none) → 1 ≤ s.failed)
Local s i unlock_own = (s.mutex ≡ some i) × Served s
Local s i read_back = Served s
Local s i (returned none) = 1 ≤ s.failed
Local s i (returned (some p)) = s.instance_ptr ≡ some p
Local s i (bind_test inst) = s.mutex ≡ some i
Local s i (bind_assign inst) = (s.mutex ≡ some i) × (s.instance_ptr ≡ none)
Local s i bind_unlock = s.mutex ≡ some i
Local s i _ = Unit

-- What other threads may do to a thread that has not the mutex.
pub frame :
    (s s' : Shared) (j : ℕ) (x : Pc)
    → s.mutex ≢ some j
    → ((p : ℕ) → s.instance_ptr ≡ some p → s'.instance_ptr ≡ some p)
    → s.failed ≤ s'.failed
    → Local s j x
    → Local s' j x
frame s s' j idle n f g l = tt
frame s s' j outer_test n f g l = tt
frame s s' j lock_wait n f g l = tt
frame s s' j inner_test n f g l = absurd (n l)
frame s s' j make n f g l = absurd (n l.0)
frame s s' j (assign p) n f g l = absurd (n l.0)
frame s s' j unlock_own n f g l = absurd (n l.0)
frame s s' j read_back n f g (inl (p, e)) = inl (p, f p e)
frame s s' j read_back n f g (inr h) = inr (omega (arith, g, h))
frame s s' j (returned none) n f g l = omega (arith, g, l)
frame s s' j (returned (some p)) n f g l = f p l
frame s s' j (bind_wait inst) n f g l = tt
frame s s' j (bind_test inst) n f g l = absurd (n l)
frame s s' j (bind_assign inst) n f g l = absurd (n l.0)
frame s s' j bind_unlock n f g l = absurd (n l)
