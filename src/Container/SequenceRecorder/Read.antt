-- ===== src/Container/SequenceRecorder/Read.antt =====
-- What the reading loops of container/sequence_recorder.h see after a write.
use selib.Prelude.{
  ℕ, zero, suc, ◌+◌, ◌-◌, ◌%◌, ◌<◌, ◌≤◌, ◌≡◌, ◌≢◌, refl, sym, ap, ◌∙◌, some, List, [], ◌∷◌, ◌++◌,
  arith, get_elem?, set, length, take, dec_lt, get_elem?-set_ne, >>=-eq-some,
}
use Prim.Native.Nat.{min}
use mathlib.Core.Option.{some-injective}
use native.Mathlib.Nat.{mod-lt, mod-add-mod, mod-eq_of_lt, mod-eq-sub-mod, add-zero, mod-mod}
use selib.Container.SequenceRecorder.{read}

-- The remainder of a number that goes round once.
mod-once : (cap n : ℕ) → cap ≤ n → n < cap + cap → n % cap ≡ n - cap
mod-once cap n low high = mod-eq-sub-mod low ∙ mod-eq_of_lt (omega arith)

-- From a place of the circle, `k` steps with `0 < k < cap` lead to another place.
pub add-mod-ne : (cap h k : ℕ) → h < cap → 0 < k → k < cap → (h + k) % cap ≢ h
add-mod-ne cap h k hh pos hk back = elim (dec_lt (h + k) cap) [
  | yes short ↦ absurd (omega (arith, mod-eq_of_lt short))
  | no round ↦ absurd (omega (arith, mod-once cap (h + k) (omega arith) (omega arith)))
]

-- Different places of one turn are different.
pub mod_ne : (cap h s t : ℕ) → 0 < cap → s < t → t < cap → (h + t) % cap ≢ (h + s) % cap
mod_ne cap h s t pos st tc e =
    add-mod-ne cap ((h + s) % cap) (t - s) (mod-lt (h + s) pos) (omega arith) (omega arith)
      (mod-add-mod (h + s) cap (t - s) ∙ ap (λ (k : ℕ). k % cap) (omega arith) ∙ e)

module _ {ℓ} {A : Type ℓ} (cap : ℕ) where
  -- One round, forwards and back.
  pub read-cons :
      (buf : List A) (j n : ℕ) {x : A} {xs : List A}
      → get_elem? buf (j % cap) ≡ some x
      → read cap buf (j + 1) n ≡ some xs
      → read cap buf j (suc n) ≡ some (x ∷ xs)
  unfolding read
  read-cons buf j n h r = rw (h, r)

  pub read-uncons :
      (buf : List A) (j n : ℕ) {xs : List A}
      → read cap buf j (suc n) ≡ some xs
      → (y : A) × (ys : List A) × (get_elem? buf (j % cap) ≡ some y)
        × (read cap buf (j + 1) n ≡ some ys)
        × (xs ≡ y ∷ ys)
  unfolding read
  read-uncons buf j n h =
      let (y, g, h') = >>=-eq-some _ _ h in
      let (ys, r, e) = >>=-eq-some _ _ h' in (y, ys, g, r, sym (some-injective _ _ e))

  -- Only the place modulo `cap` counts.
  pub read-mod : (buf : List A) (j n : ℕ) → read cap buf (j % cap) n ≡ read cap buf j n
  unfolding read
  read-mod buf j zero = refl
  read-mod buf j (suc n) =
      let next =
        sym (read-mod buf (j % cap + 1) n)
        ∙ ap (λ (k : ℕ). read cap buf k n) (mod-add-mod j cap 1)
        ∙ read-mod buf (j + 1) n in
      rw (mod-mod, next)

  pub read-set_out :
      (buf : List A) (i : ℕ) (x : A) (j n : ℕ)
      → ((t : ℕ) → t < n → i ≢ (j + t) % cap)
      → read cap (set buf i x) j n ≡ read cap buf j n
  unfolding read
  read-set_out buf i x j zero h = refl
  read-set_out buf i x j (suc n) h =
      let later : (t : ℕ) → t < n → i ≢ (j + 1 + t) % cap =
        λ t lt e. h (suc t) (omega arith) (e ∙ ap (λ (k : ℕ). k % cap) (omega arith)) in
      rw (
        get_elem?-set_ne buf x (rw add-zero at (h 0 (omega arith))),
        read-set_out buf i x (j + 1) n later,
      )

  -- The last round of the loop.
  pub read-snoc :
      (buf : List A) (j n : ℕ) (xs : List A) (x : A)
      → read cap buf j n ≡ some xs
      → get_elem? buf ((j + n) % cap) ≡ some x
      → read cap buf j (suc n) ≡ some (xs ++ x ∷ [])
  unfolding read
  read-snoc buf j zero xs x h e =
      let here : get_elem? buf (j % cap) ≡ some x = rw add-zero at e in
      rw (here, ← some-injective _ _ h)
  read-snoc buf j (suc n) xs x h e =
      let (y, ys, g, r, q) = read-uncons buf j n h in
      let here : get_elem? buf ((j + 1 + n) % cap) ≡ some x =
        ap (λ (k : ℕ). get_elem? buf (k % cap)) (omega arith) ∙ e in
      read-cons buf j (suc n) g (read-snoc buf (j + 1) n ys x r here) ∙ rw q

  pub length-read :
      (buf : List A) (j n : ℕ) {xs : List A} → read cap buf j n ≡ some xs → length xs ≡ n
  unfolding read
  length-read buf j zero h = ap length (sym (some-injective _ _ h))
  length-read buf j (suc n) h =
      let (y, ys, g, r, q) = read-uncons buf j n h in rw q (ap suc (length-read buf (j + 1) n r))

  -- A shorter loop reads the front of what a longer one reads.
  pub read-take :
      (buf : List A) (j m n : ℕ) {xs : List A}
      → read cap buf j n ≡ some xs
      → read cap buf j (min m n) ≡ some (take m xs)
  unfolding read
  read-take buf j zero n h = let e : min 0 n ≡ 0 = omega arith in rw e
  read-take buf j (suc m) zero h =
      let e : min (suc m) 0 ≡ 0 = omega arith in rw (e, ← some-injective _ _ h)
  read-take buf j (suc m) (suc n) {xs} h =
      let (y, ys, g, r, q) = read-uncons buf j n h in
      let e : min (suc m) (suc n) ≡ suc (min m n) = omega arith in
      rw (e, q) (read-cons buf j (min m n) g (read-take buf (j + 1) m n r))
