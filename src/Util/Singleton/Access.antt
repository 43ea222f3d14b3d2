-- ===== src/Util/Singleton/Access.antt =====
-- util/singleton.h: one access of one thread, and what it leaves for itself and for the others.
use selib.Prelude.{
  ℕ, ◌≤◌, ◌≡◌, ◌≢◌, refl, sym, ◌∙◌, inl, inr, ◌⊎◌, Bool, true, false, Option, none, some, arith,
  Option-cases,
}
use mathlib.Core.Path.{subst}
use mathlib.Core.Option.{some-injective}
use selib.Util.Singleton.{
  Shared, Pc, idle, outer_test, lock_wait, inner_test, make, assign, unlock_own, read_back,
  returned, bind_wait, bind_test, bind_assign, bind_unlock, acquire, choose, next,
}
use selib.Util.Singleton.Local.{Local, Served}

-- The thread is about to assign an object that it made.
abbrev pub is_assign : Pc → Bool
is_assign (assign (some p)) = true
is_assign _ = false

abbrev Kept : Shared → Shared → Pc → Pc → Type 0
Kept s s' x x' =
    ((is_assign x ≡ false) × (s'.made ≡ s.made))
    ⊎ (((p : ℕ) × (s'.instance_ptr ≡ some p) × (s'.made ≡ 1))
        ⊎ ((p : ℕ) × (x' ≡ assign (some p)) × (s'.made ≡ 1)))

-- An instance stays, failures are not forgotten, and if anything changes no other thread has the mutex.
pub record Access (s : Shared) (me : ℕ) (x : Pc) (r : Shared × Pc) : Type 0 where
  pub stays : (p : ℕ) → s.instance_ptr ≡ some p → r.0.instance_ptr ≡ some p
  pub remembers : s.failed ≤ r.0.failed
  pub alone : (r.0 ≡ s) ⊎ ((j : ℕ) → j ≢ me → s.mutex ≢ some j)
  pub own : Local r.0 me r.1
  pub kept : Kept s r.0 x r.1

module _ (s : Shared) (me : ℕ) where
  quiet : (x x' : Pc) → is_assign x ≡ false → Local s me x' → Access s me x (s, x')
  quiet x x' a l = record {
    stays = λ p e. e;
    remembers = omega arith;
    alone = inl refl;
    own = l;
    kept = inl (a, refl);
  }

  mine : s.mutex ≡ some me → (j : ℕ) → j ≢ me → s.mutex ≢ some j
  mine e j n f = n (some-injective j me (sym f ∙ e))

  ByMutex : Pc → Pc → Pc → Option ℕ → Type 0
  ByMutex x waiting inside m =
      Access s me x
        (elim m [ none ↦ (record s { mutex = some me }, inside) | some other ↦ (s, waiting) ])

  -- The mutex is taken, or waited for.
  acquire_lem :
      (x waiting inside : Pc)
      → is_assign x ≡ false
      → Local s me waiting
      → Local (record s { mutex = some me }) me inside
      → Access s me x (acquire me s waiting inside)
  unfolding acquire ByMutex
  acquire_lem x waiting inside a l m = elim (Option-cases s.mutex) [
    | inl e ↦ subst (ByMutex x waiting inside) (sym e) (record {
      stays = λ p f. f;
      remembers = omega arith;
      alone = inr (λ j n f. cc);
      own = m;
      kept = inl (a, refl);
    })
    | inr (q, e) ↦ subst (ByMutex x waiting inside) (sym e) (quiet x waiting a l)
  ]

  choose_lem :
      (x null other : Pc)
      → is_assign x ≡ false
      → (s.instance_ptr ≡ none → Local s me null)
      → ((p : ℕ) → s.instance_ptr ≡ some p → Local s me other)
      → Access s me x (s, choose s.instance_ptr null other)
  unfolding choose
  choose_lem x null other a l m = elim (Option-cases s.instance_ptr) [
    | inl e ↦ subst (λ o. Access s me x (s, choose o null other)) (sym e) (quiet x null a (l e))
    | inr (p, e) ↦
        subst (λ o. Access s me x (s, choose o null other)) (sym e) (quiet x other a (m p e))
  ]

  -- The mutex is given up.
  release_lem :
      (x x' : Pc)
      → is_assign x ≡ false
      → s.mutex ≡ some me
      → Local (record s { mutex = none }) me x'
      → Access s me x (record s { mutex = none }, x')
  release_lem x x' a e l = record {
    stays = λ p f. f;
    remembers = omega arith;
    alone = inr (mine e);
    own = l;
    kept = inl (a, refl);
  }

  answer : Served s → Local s me (returned s.instance_ptr)
  answer (inl (p, e)) = subst (λ o. Local s me (returned o)) (sym e) e
  answer (inr f) = elim (Option-cases s.instance_ptr) [
    | inl e ↦ subst (λ o. Local s me (returned o)) (sym e) f
    | inr (p, e) ↦ subst (λ o. Local s me (returned o)) (sym e) e
  ]

  pub next_lem :
      (new_ok : Bool) (x : Pc)
      → Local s me x
      → (s.mutex ≡ some me → x ≡ inner_test → s.instance_ptr ≡ none → s.made ≡ 0)
      → Access s me x (next me new_ok s x)
  unfolding next
  next_lem new_ok idle l h = quiet idle idle refl tt
  next_lem new_ok outer_test l h =
      choose_lem outer_test lock_wait read_back refl (λ e. tt) (λ p e. inl (p, e))
  next_lem new_ok lock_wait l h = acquire_lem lock_wait lock_wait inner_test refl tt refl
  next_lem new_ok inner_test l h =
      choose_lem inner_test make unlock_own refl (λ e. (l, e, h l refl e)) (λ p e. (l, inl (p, e)))
  next_lem true make (l, e, z) h = record {
    stays = λ p f. f;
    remembers = omega arith;
    alone = inr (mine l);
    own = (l, e, omega (arith, z), λ f. cc);
    kept = inr (inr (s.made, refl, omega (arith, z)));
  }
  next_lem false make (l, e, z) h = record {
    stays = λ p f. f;
    remembers = omega arith;
    alone = inr (mine l);
    own = (l, e, z, λ f. omega arith);
    kept = inl (refl, refl);
  }
  next_lem new_ok (assign none) (l, e, z, f) h = record {
    stays = λ p g. cc;
    remembers = omega arith;
    alone = inr (mine l);
    own = (l, inr (f refl));
    kept = inl (refl, refl);
  }
  next_lem new_ok (assign (some q)) (l, e, z, f) h = record {
    stays = λ p g. cc;
    remembers = omega arith;
    alone = inr (mine l);
    own = (l, inl (q, refl));
    kept = inr (inl (q, refl, z));
  }
  next_lem new_ok unlock_own (l, v) h = release_lem unlock_own read_back refl l v
  next_lem new_ok read_back v h = quiet read_back (returned s.instance_ptr) refl (answer v)
  next_lem new_ok (returned p) l h = quiet (returned p) (returned p) refl l
  next_lem new_ok (bind_wait inst) l h =
      acquire_lem (bind_wait inst) (bind_wait inst) (bind_test inst) refl tt refl
  next_lem new_ok (bind_test inst) l h =
      choose_lem (bind_test inst) (bind_assign inst) bind_unlock refl (λ e. (l, e)) (λ p e. l)
  next_lem new_ok (bind_assign inst) (l, e) h = record {
    stays = λ p g. cc;
    remembers = omega arith;
    alone = inr (mine l);
    own = l;
    kept = inl (refl, refl);
  }
  next_lem new_ok bind_unlock l h = release_lem bind_unlock idle refl l tt
