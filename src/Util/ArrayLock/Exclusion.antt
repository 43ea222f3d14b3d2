-- ===== src/Util/ArrayLock/Exclusion.antt =====
-- Any number of threads that use the locks of util/array_lock.h, in any interleaving of their accesses.
use selib.Prelude.{
  ℕ, ◌<◌, ◌^◌, ◌≡◌, ◌≢◌, ◌∙◌, sym, refl, true, some, none, ◌==◌, if◌then◌else◌, arith, Bool-cases,
  inl, inr,
}
use mathlib.Core.Path.{subst}
use mathlib.Core.Option.{some-injective}
use selib.Util.BitArray.{BitArray, create}
use selib.Util.BitArray.Laws.{IsValid, contents, create_lem}
use selib.Util.ArrayLock.{Pc, idle, lock_wait, critical, unlock_check, failed, next}
use selib.Util.ArrayLock.Threads.{holds, Local, Effect, quiet, take, release, Access, next_lem}

pub record System : Type 0 where
  pub mem : BitArray
  pub pc : ℕ → Pc

abbrev pub update : (ℕ → Pc) → ℕ → Pc → ℕ → Pc
update f i x j = if i == j then x else f j

-- A thread calls `lock` on a position in range, or `unlock` on the lock that it holds, or makes its next
-- access.
pub data Step : System → System → Type 0 where
  call_lock :
      (s : System) (i p : ℕ)
      → s.pc i ≡ idle
      → p < s.mem.buf_len
      → Step s (record s { pc = update s.pc i (lock_wait p) })
  call_unlock :
      (s : System) (i p : ℕ)
      → s.pc i ≡ critical p
      → Step s (record s { pc = update s.pc i (unlock_check p) })
  access :
      (s : System) (i : ℕ) (b : BitArray) (x : Pc)
      → next s.mem (s.pc i) ≡ some (b, x)
      → Step s (record { mem = b; pc = update s.pc i x })

pub data Reach (s : System) : System → Type 0 where
  here : Reach s s
  later : {t u : System} → Reach s t → Step t u → Reach s u

-- A lock that is held has its bit set, and has one holder.
pub record Inv (s : System) : Type 0 where
  pub valid : IsValid s.mem
  pub places : (i : ℕ) → Local s.mem.buf_len (s.pc i)
  pub held : (i p : ℕ) → holds (s.pc i) ≡ some p → contents s.mem p ≡ true
  pub unique : (i j p : ℕ) → holds (s.pc i) ≡ some p → holds (s.pc j) ≡ some p → i ≡ j

unfoldable pub start : BitArray → System
start b = record { mem = b; pc = λ _. idle }

start-Inv : {b : BitArray} → IsValid b → Inv (start b)
unfolding start
start-Inv v = record { valid = v; places = λ i. tt; held = λ i p h. cc; unique = λ i j p h k. cc }

holds-update :
    (f : ℕ → Pc) (i j : ℕ) (x : Pc)
    → holds (update f i x j) ≡ (if i == j then holds x else holds (f j))
holds-update f i j x = elim (Bool-cases (i == j)) [ inl e ↦ rw e | inr e ↦ rw e ]

Local-update :
    (n : ℕ) (f : ℕ → Pc) (i j : ℕ) (x : Pc) → Local n x → Local n (f j) → Local n (update f i x j)
Local-update n f i j x a b = elim (Bool-cases (i == j)) [ inl e ↦ rw e a | inr e ↦ rw e b ]

module _ {s : System} (inv : Inv s) (i : ℕ) (b : BitArray) (x : Pc) where
  held_after :
      Effect s.mem b (s.pc i) x
      → (j p : ℕ) → (if i == j then holds x else holds (s.pc j)) ≡ some p
      → contents b p ≡ true
  held_after (quiet same h) j p e = ground (arith, inv.held i p, inv.held j p)
  held_after (take p0 before after was w) j p e = ground (arith, w p, inv.held j p)
  held_after (release p0 before after w) j p e = ground (arith, w p, inv.held j p, inv.unique i j p)

  unique_after :
      Effect s.mem b (s.pc i) x
      → (j k p : ℕ) → (if i == j then holds x else holds (s.pc j)) ≡ some p
      → (if i == k then holds x else holds (s.pc k)) ≡ some p
      → j ≡ k
  unique_after (quiet same h) j k p e f =
      ground (arith, inv.unique j k p, inv.unique i k p, inv.unique j i p)
  unique_after (take p0 before after was w) j k p e f =
      ground (arith, inv.unique j k p, inv.held j p, inv.held k p)
  unique_after (release p0 before after w) j k p e f = ground (arith, inv.unique j k p)

  access-Inv :
      IsValid b
      → b.buf_len ≡ s.mem.buf_len
      → Local s.mem.buf_len x
      → Effect s.mem b (s.pc i) x
      → Inv (record { mem = b; pc = update s.pc i x })
  access-Inv v same l eff = record {
    valid = v;
    places = λ j. Local-update b.buf_len s.pc i j x (rw same l) (rw same (inv.places j));
    held = λ j p h. held_after eff j p (sym (holds-update s.pc i j x) ∙ h);
    unique = λ j k p h g.
        unique_after eff j k p (sym (holds-update s.pc i j x) ∙ h)
          (sym (holds-update s.pc i k x) ∙ g);
  }

thread-Access : {s : System} → Inv s → (i : ℕ) → Access s.mem (s.pc i)
thread-Access {s} inv i = next_lem (s.pc i) inv.valid (inv.places i) (inv.held i)

-- Every step of the system keeps the invariant.
Step-Inv : {s t : System} → Step s t → Inv s → Inv t
Step-Inv (call_lock s i p e lt) inv =
    access-Inv inv i s.mem (lock_wait p) inv.valid refl lt (quiet refl (rw e))
Step-Inv (call_unlock s i p e) inv =
    access-Inv inv i s.mem (unlock_check p) inv.valid refl (rw e at (inv.places i))
      (quiet refl (rw e))
Step-Inv (access s i b x e) inv =
    let (b', x', e', v, same, l, eff) = thread-Access inv i in
    subst (λ r. Inv (record { mem = r.0; pc = update s.pc i r.1 }))
      (some-injective _ _ (sym e' ∙ e)) (access-Inv inv i b' x' v same l eff)

Reach-Inv : {s t : System} → Inv s → Reach s t → Inv t
Reach-Inv inv here = inv
Reach-Inv inv (later r st) = Step-Inv st (Reach-Inv inv r)

-- From a fresh array of locks, whatever the interleaving: two threads that are between `lock` and
-- `unlock` of one position are one thread. The threads call `lock` on positions in range, and `unlock`
-- on the lock that they hold.
pub mutual_exclusion :
    (len : ℕ) {b : BitArray} {t : System} (i j p : ℕ)
    → len < 2 ^ 32
    → create true len ≡ some b
    → Reach (start b) t
    → t.pc i ≡ critical p
    → t.pc j ≡ critical p
    → i ≡ j
mutual_exclusion len i j p small made r e f =
    (Reach-Inv (start-Inv (create_lem len small made).0) r).unique i j p (rw e) (rw f)

-- From a fresh array of locks, whatever the interleaving of threads that call `lock` on positions in
-- range and `unlock` on the lock that they hold: no access faults, and no `unlock` comes to its error
-- return.
pub no_failure :
    (len : ℕ) {b : BitArray} {t : System} (i : ℕ)
    → len < 2 ^ 32
    → create true len ≡ some b
    → Reach (start b) t
    → (next t.mem (t.pc i) ≢ none) × ((p : ℕ) → t.pc i ≢ failed p)
no_failure len {t} i small made r =
    let inv = Reach-Inv (start-Inv (create_lem len small made).0) r in
    let (b', x', e, _, _, _, _) = thread-Access inv i in (λ h. cc, λ p h. rw h at (inv.places i))
