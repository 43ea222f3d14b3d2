-- ===== src/Util/Singleton/Safety.antt =====
-- util/singleton.h: any number of threads that call `get_instance` and `bind`, in any interleaving.
use selib.Prelude.{
  ℕ, ◌≤◌, ◌≡◌, ◌≢◌, refl, sym, ap, ◌∙◌, inl, inr, ◌⊎◌, Bool, true, false, Option, none, some, ◌==◌,
  if◌then◌else◌, arith, eq→==, ne→==, ℕ_discrete,
}
use mathlib.Core.Path.{subst}
use mathlib.Core.Option.{some-injective}
use selib.Util.Singleton.Local.{Local, frame}
use selib.Util.Singleton.Access.{Access, is_assign, next_lem}
use selib.Util.Singleton.{
  Shared, Pc, idle, outer_test, inner_test, assign, returned, bind_wait, next,
}

pub record System : Type 0 where
  pub shared : Shared
  pub pc : ℕ → Pc

abbrev pub update : (ℕ → Pc) → ℕ → Pc → ℕ → Pc
update f i x j = if i == j then x else f j

-- A thread that stands nowhere calls `get_instance` or `bind`, one that returned goes on, or a thread makes
-- its next access, in which `new` succeeds or not.
pub data Step : System → System → Type 0 where
  call_get :
      (s : System) (i : ℕ) → s.pc i ≡ idle → Step s (record s { pc = update s.pc i outer_test })
  call_bind :
      (s : System) (i : ℕ) (inst : Option ℕ)
      → s.pc i ≡ idle
      → Step s (record s { pc = update s.pc i (bind_wait inst) })
  go_on :
      (s : System) (i : ℕ) (p : Option ℕ)
      → s.pc i ≡ returned p
      → Step s (record s { pc = update s.pc i idle })
  access :
      (s : System) (i : ℕ) (new_ok : Bool)
      → Step s (record {
        shared = (next i new_ok s.shared (s.pc i)).0;
        pc = update s.pc i (next i new_ok s.shared (s.pc i)).1;
      })

pub data Reach (s : System) : System → Type 0 where
  here : Reach s s
  later : {t u : System} → Reach s t → Step t u → Reach s u

unfoldable pub start : System
start = record {
  shared = record { instance_ptr = none; mutex = none; made = 0; failed = 0 };
  pc = λ _. idle;
}

-- No object was made, or it is the instance, or the holder of the mutex is about to assign it.
abbrev Made : System → Type 0
Made s =
    (s.shared.made ≡ 0)
    ⊎ ((s.shared.made ≡ 1)
        × (((p : ℕ) × (s.shared.instance_ptr ≡ some p))
            ⊎ ((i : ℕ) × (p : ℕ) × (s.pc i ≡ assign (some p)))))

pub record Inv (s : System) : Type 0 where
  pub local : (i : ℕ) → Local s.shared i (s.pc i)
  pub objects : Made s

pub start-Inv : Inv start
unfolding start
start-Inv = record { local = λ i. tt; objects = inl refl }

pub update-hit : (f : ℕ → Pc) (i j : ℕ) (x : Pc) → i ≡ j → update f i x j ≡ x
update-hit f i j x e = rw (eq→== i j e)

pub update-other : (f : ℕ → Pc) (i j : ℕ) (x : Pc) → i ≢ j → update f i x j ≡ f j
update-other f i j x n = rw (ne→== i j n)

module _ (s : System) (inv : Inv s) (i : ℕ) where
  -- Without an instance, the holder of the mutex at the inner test finds no object made.
  none_made :
      s.shared.mutex ≡ some i
      → s.pc i ≡ inner_test
      → s.shared.instance_ptr ≡ none
      → s.shared.made ≡ 0
  none_made m e n = elim inv.objects [
    | inl z ↦ z
    | inr (one, inl (p, f)) ↦ cc
    | inr (one, inr (j, p, f)) ↦
        let (k, _, _, _) = subst (Local s.shared j) f (inv.local j) in
        let same : j ≡ i = some-injective j i (sym k ∙ m) in
        let g : s.pc i ≡ assign (some p) = ap s.pc (sym same) ∙ f in cc
  ]

  -- A thread at a place where it has done nothing.
  called-Inv :
      (x : Pc)
      → is_assign (s.pc i) ≡ false
      → Local s.shared i x
      → Inv (record s { pc = update s.pc i x })
  called-Inv x a l = record {
    local = λ j. elim (ℕ_discrete i j) [
      | yes e ↦
          subst (Local s.shared j) (sym (update-hit s.pc i j x e))
            (subst (λ k. Local s.shared k x) e l)
      | no n ↦ subst (Local s.shared j) (sym (update-other s.pc i j x n)) (inv.local j)
    ];
    objects = elim inv.objects [
      | inl z ↦ inl z
      | inr (one, inl f) ↦ inr (one, inl f)
      | inr (one, inr (j, p, f)) ↦
          let other : i ≢ j =
            λ e. let g : is_assign (s.pc i) ≡ true = ap is_assign (ap s.pc e ∙ f) in cc in
          inr (one, inr (j, p, update-other s.pc i j x other ∙ f))
    ];
  }

  after-Inv :
      (r : Shared × Pc)
      → Access s.shared i (s.pc i) r
      → Inv (record { shared = r.0; pc = update s.pc i r.1 })
  after-Inv (s', x) a = record {
    local = λ j. elim (ℕ_discrete i j) [
      | yes e ↦
          subst (Local s' j) (sym (update-hit s.pc i j x e)) (subst (λ k. Local s' k x) e a.own)
      | no n ↦ subst (Local s' j) (sym (update-other s.pc i j x n)) (elim a.alone [
        | inl e ↦ subst (λ t. Local t j (s.pc j)) (sym e) (inv.local j)
        | inr f ↦
            frame s.shared s' j (s.pc j) (f j (λ e. n (sym e))) a.stays a.remembers (inv.local j)
      ])
    ];
    objects = elim a.kept [
      | inl (b, same) ↦ elim inv.objects [
        | inl z ↦ inl (same ∙ z)
        | inr (one, inl (p, f)) ↦ inr (same ∙ one, inl (p, a.stays p f))
        | inr (one, inr (j, p, f)) ↦
            let other : i ≢ j =
              λ e. let g : is_assign (s.pc i) ≡ true = ap is_assign (ap s.pc e ∙ f) in cc in
            inr (same ∙ one, inr (j, p, update-other s.pc i j x other ∙ f))
      ]
      | inr (inl (p, f, one)) ↦ inr (one, inl (p, f))
      | inr (inr (p, f, one)) ↦ inr (one, inr (i, p, update-hit s.pc i i x refl ∙ f))
    ];
  }

Step-Inv : {s t : System} → Step s t → Inv s → Inv t
Step-Inv (call_get s i e) inv = called-Inv s inv i outer_test (rw e refl) tt
Step-Inv (call_bind s i inst e) inv = called-Inv s inv i (bind_wait inst) (rw e refl) tt
Step-Inv (go_on s i p e) inv = called-Inv s inv i idle (rw e refl) tt
Step-Inv (access s i new_ok) inv =
    after-Inv s inv i (next i new_ok s.shared (s.pc i))
      (next_lem s.shared i new_ok (s.pc i) (inv.local i) (none_made s inv i))

pub Reach-Inv : {s t : System} → Inv s → Reach s t → Inv t
Reach-Inv inv here = inv
Reach-Inv inv (later r st) = Step-Inv st (Reach-Inv inv r)

-- Whatever the interleaving of the threads in `get_instance` and `bind`, at most one object is made.
pub one_object : {s : System} → Reach start s → s.shared.made ≤ 1
one_object r = elim (Inv.objects (Reach-Inv start-Inv r)) [
  | inl z ↦ omega (arith, z)
  | inr (one, f) ↦ omega (arith, one)
]

-- Whatever the interleaving of the threads, `get_instance` has returned a null pointer only after a `new` that
-- failed.
pub null_after_failure :
    {s : System} (i : ℕ) → Reach start s → s.pc i ≡ returned none → 1 ≤ s.shared.failed
null_after_failure {s} i r e = subst (Local s.shared i) e (Inv.local (Reach-Inv start-Inv r) i)

Step-stays :
    {s t : System} (p : ℕ)
    → Step s t
    → Inv s
    → s.shared.instance_ptr ≡ some p
    → t.shared.instance_ptr ≡ some p
Step-stays p (call_get s i e) inv f = f
Step-stays p (call_bind s i inst e) inv f = f
Step-stays p (go_on s i q e) inv f = f
Step-stays p (access s i new_ok) inv f =
    Access.stays (next_lem s.shared i new_ok (s.pc i) (inv.local i) (none_made s inv i)) p f

pub Reach-stays :
    {s t : System} (p : ℕ)
    → Inv s
    → Reach s t
    → s.shared.instance_ptr ≡ some p
    → t.shared.instance_ptr ≡ some p
Reach-stays p inv here f = f
Reach-stays p inv (later r st) f = Step-stays p st (Reach-Inv inv r) (Reach-stays p inv r f)
