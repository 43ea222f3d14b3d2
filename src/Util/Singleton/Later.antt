-- ===== src/Util/Singleton/Later.antt =====
-- util/singleton.h: what `get_instance` returns once it has returned a pointer that is not null.
use selib.Prelude.{
  ℕ, ◌≡◌, ◌≢◌, refl, sym, ap, ◌∙◌, inl, inr, Bool, true, false, Option, none, some, ℕ_discrete,
  Option-cases,
}
use mathlib.Core.Path.{subst}
use mathlib.Core.Bool.{true≢false}
use selib.Util.Singleton.Local.{Local}
use selib.Util.Singleton.Safety.{
  System, update, update-hit, update-other, Step, call_get, call_bind, go_on, access, Reach, here,
  later, start, Inv, start-Inv, Reach-Inv, Reach-stays,
}
use selib.Util.Singleton.{
  Shared, Pc, idle, outer_test, lock_wait, inner_test, make, assign, unlock_own, read_back,
  returned, bind_wait, bind_test, bind_assign, bind_unlock, acquire, choose, next,
}

-- A thread has just got a null pointer.
abbrev got_null : Pc → Bool
got_null (returned none) = true
got_null _ = false

got_null-false : (x : Pc) → x ≢ returned none → got_null x ≡ false
got_null-false (returned none) n = absurd (n refl)
got_null-false (returned (some p)) n = refl
got_null-false idle n = refl
got_null-false outer_test n = refl
got_null-false lock_wait n = refl
got_null-false inner_test n = refl
got_null-false make n = refl
got_null-false (assign p) n = refl
got_null-false unlock_own n = refl
got_null-false read_back n = refl
got_null-false (bind_wait inst) n = refl
got_null-false (bind_test inst) n = refl
got_null-false (bind_assign inst) n = refl
got_null-false bind_unlock n = refl

got_null-acquire :
    (me : ℕ) (s : Shared) (waiting inside : Pc)
    → got_null waiting ≡ false
    → got_null inside ≡ false
    → got_null (acquire me s waiting inside).1 ≡ false
unfolding acquire
got_null-acquire me s waiting inside w i = elim (Option-cases s.mutex) [
  | inl e ↦ rw e i
  | inr (q, e) ↦ rw e w
]

got_null-choose :
    (o : Option ℕ) (null other : Pc)
    → got_null null ≡ false
    → got_null other ≡ false
    → got_null (choose o null other) ≡ false
unfolding choose
got_null-choose none null other a b = a
got_null-choose (some p) null other a b = b

-- Where there is an instance, an access does not return a null pointer.
got_null-next :
    (me : ℕ) (new_ok : Bool) (s : Shared) (p : ℕ) (x : Pc)
    → s.instance_ptr ≡ some p
    → got_null x ≡ false
    → got_null (next me new_ok s x).1 ≡ false
unfolding next
got_null-next me new_ok s p idle e g = refl
got_null-next me new_ok s p outer_test e g =
    got_null-choose s.instance_ptr lock_wait read_back refl refl
got_null-next me new_ok s p lock_wait e g = got_null-acquire me s lock_wait inner_test refl refl
got_null-next me new_ok s p inner_test e g =
    got_null-choose s.instance_ptr make unlock_own refl refl
got_null-next me true s p make e g = refl
got_null-next me false s p make e g = refl
got_null-next me new_ok s p (assign q) e g = refl
got_null-next me new_ok s p unlock_own e g = refl
got_null-next me new_ok s p read_back e g = ap (λ o. got_null (returned o)) e
got_null-next me new_ok s p (returned q) e g = g
got_null-next me new_ok s p (bind_wait inst) e g =
    got_null-acquire me s (bind_wait inst) (bind_test inst) refl refl
got_null-next me new_ok s p (bind_test inst) e g =
    got_null-choose s.instance_ptr (bind_assign inst) bind_unlock refl refl
got_null-next me new_ok s p (bind_assign inst) e g = refl
got_null-next me new_ok s p bind_unlock e g = refl

got_null-update :
    (f : ℕ → Pc) (i j : ℕ) (x : Pc)
    → got_null x ≡ false
    → got_null (f j) ≡ false
    → got_null (update f i x j) ≡ false
got_null-update f i j x a b = elim (ℕ_discrete i j) [
  | yes e ↦ ap got_null (update-hit f i j x e) ∙ a
  | no n ↦ ap got_null (update-other f i j x n) ∙ b
]

got_null-Step :
    {s t : System} (p j : ℕ)
    → Step s t
    → s.shared.instance_ptr ≡ some p
    → got_null (s.pc j) ≡ false
    → got_null (t.pc j) ≡ false
got_null-Step p j (call_get s i e) f g = got_null-update s.pc i j outer_test refl g
got_null-Step p j (call_bind s i inst e) f g = got_null-update s.pc i j (bind_wait inst) refl g
got_null-Step p j (go_on s i q e) f g = got_null-update s.pc i j idle refl g
got_null-Step p j (access s i new_ok) f g = elim (ℕ_discrete i j) [
  | yes e ↦
      ap got_null (update-hit s.pc i j (next i new_ok s.shared (s.pc i)).1 e)
      ∙ got_null-next i new_ok s.shared p (s.pc i) f (ap (λ k. got_null (s.pc k)) e ∙ g)
  | no n ↦ ap got_null (update-other s.pc i j (next i new_ok s.shared (s.pc i)).1 n) ∙ g
]

got_null-Reach :
    {s t : System} (p j : ℕ)
    → Inv s
    → Reach s t
    → s.shared.instance_ptr ≡ some p
    → got_null (s.pc j) ≡ false
    → got_null (t.pc j) ≡ false
got_null-Reach p j inv here f g = g
got_null-Reach p j inv (later r st) f g =
    got_null-Step p j st (Reach-stays p inv r f) (got_null-Reach p j inv r f g)

-- Whatever the interleaving of the threads: once a thread has got a pointer that is not null from `get_instance`,
-- whatever `get_instance` returns from then on, to any thread, is that pointer and not null, also to a thread
-- that was in the middle of its call; only a thread that has just got a null pointer is left out.
pub same_later :
    {s t : System} (i j p : ℕ) (v : Option ℕ)
    → Reach start s
    → s.pc i ≡ returned (some p)
    → s.pc j ≢ returned none
    → Reach s t
    → t.pc j ≡ returned v
    → v ≡ some p
same_later {s} {t} i j p none r e n u f =
    let inv = Reach-Inv start-Inv r in
    let there = subst (Local s.shared i) e (inv.local i) in
    let g = got_null-Reach p j inv u there (got_null-false (s.pc j) n) in
    absurd (true≢false (sym (ap got_null f) ∙ g))
same_later {s} {t} i j p (some q) r e n u f =
    let inv = Reach-Inv start-Inv r in
    sym (subst (Local t.shared j) f (Inv.local (Reach-Inv inv u) j))
    ∙ Reach-stays p inv u (subst (Local s.shared i) e (inv.local i))
