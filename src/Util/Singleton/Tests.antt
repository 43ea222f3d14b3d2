-- ===== src/Util/Singleton/Tests.antt =====
-- Two threads that call `get_instance` of util/singleton.h, and its theorems at the state they come to.
use selib.Prelude.{ℕ, zero, suc, ◌≤◌, ◌≡◌, ◌≢◌, refl, Bool, true, false, Option, none, some}
use selib.Util.Singleton.{outer_test, returned, next}
use selib.Util.Singleton.Safety.{
  System, update, Reach, here, later, call_get, access, start, one_object, null_after_failure,
}
use selib.Util.Singleton.Later.{same_later}

abbrev call : System → ℕ → System
call s i = record s { pc = update s.pc i outer_test }

abbrev act : Bool → System → ℕ → System
act new_ok s i = record {
  shared = (next i new_ok s.shared (s.pc i)).0;
  pc = update s.pc i (next i new_ok s.shared (s.pc i)).1;
}

abbrev acts : Bool → ℕ → System → ℕ → System
acts new_ok zero s i = s
acts new_ok (suc n) s i = act new_ok (acts new_ok n s i) i

acts-Reach : {s t : System} (new_ok : Bool) (n i : ℕ) → Reach s t → Reach s (acts new_ok n t i)
acts-Reach new_ok zero i r = r
acts-Reach {s} {t} new_ok (suc n) i r =
    later (acts-Reach new_ok n i r) (access (acts new_ok n t i) i new_ok)

-- The first thread makes the object, the second one finds it.
abbrev first_done : System
first_done = acts true 7 (call start 0) 0

abbrev both_done : System
both_done = acts true 2 (call first_done 1) 1

first_returned : first_done.pc 0 ≡ returned (some 0)
unfolding start next
first_returned = refl

second_returned : both_done.pc 1 ≡ returned (some 0)
unfolding start next
second_returned = refl

first-Reach : Reach start first_done
unfolding start
first-Reach = acts-Reach true 7 0 (later here (call_get start 0 refl))

second-Reach : Reach first_done both_done
unfolding start next
second-Reach = acts-Reach true 2 1 (later here (call_get first_done 1 refl))

both-Reach : Reach start both_done
unfolding start next
both-Reach = acts-Reach true 2 1 (later first-Reach (call_get first_done 1 refl))

-- Where `new` fails, the thread gets a null pointer.
abbrev without : System
without = acts false 7 (call start 0) 0

without_returned : without.pc 0 ≡ returned none
unfolding start next
without_returned = refl

without-Reach : Reach start without
unfolding start
without-Reach = acts-Reach false 7 0 (later here (call_get start 0 refl))

null_after_failure_example : 1 ≤ without.shared.failed
null_after_failure_example = null_after_failure 0 without-Reach without_returned

one_object_example : both_done.shared.made ≤ 1
one_object_example = one_object both-Reach

second_called : first_done.pc 1 ≢ returned none
unfolding start next
second_called e = cc

same_later_example : ◌≡◌ {A = Option ℕ} (some 0) (some 0)
same_later_example =
    same_later 0 1 0 (some 0) first-Reach first_returned second_called second-Reach second_returned
