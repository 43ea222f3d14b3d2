-- ===== src/Algorithm/HeapSort/Sizes.antt =====
-- algorithm/heap_sort.h: how many of the numbers from 1 to `len` stand below a number, where those below `i` are
-- below `2 * i` and `2 * i + 1`; below 1 stand all.
use selib.Prelude.{
  ℕ, zero, suc, ◌+◌, ◌-◌, ◌*◌, ◌≤◌, ◌<◌, ◌≡◌, refl, ap, ◌∙◌, inl, inr, leb, if◌then◌else◌, arith,
  Bool-cases,
}

module _ (len : ℕ) where
  unfoldable pub size : ℕ → ℕ → ℕ
  size zero i = 0
  size (suc f) i =
      let a = size f (2 * i) in let b = size f (2 * i + 1) in if leb i len then 1 + a + b else 0

  pub size_out : (f i : ℕ) → len < i → size f i ≡ 0
  unfolding size
  size_out zero i h = refl
  size_out (suc f) i h = ground arith

  pub size_in : (f i : ℕ) → i ≤ len → size (suc f) i ≡ 1 + size f (2 * i) + size f (2 * i + 1)
  unfolding size
  size_in f i h = ground arith

  pub size_pos : (f i : ℕ) → 1 ≤ f → i ≤ len → 1 ≤ size f i
  size_pos zero i h k = absurd (omega (arith, h))
  size_pos (suc f) i h k = omega (arith, size_in f i k)

  -- The numbers of a range that are at most `len`.
  inside : ℕ → ℕ → ℕ
  inside a zero = 0
  inside a (suc n) = (if leb a len then 1 else 0) + inside (a + 1) n

  inside_lem :
      (a n : ℕ)
      → (a + n ≤ len + 1 → inside a n ≡ n)
        × (len + 1 ≤ a + n → inside a n + a ≡ len + 1 + (a - (len + 1)))
  unfolding inside
  inside_lem a zero = (λ h. refl, λ h. omega (arith, h))
  inside_lem a (suc n) =
      let (f, g) = inside_lem (a + 1) n in (λ h. ground (arith, f, h), λ h. ground (arith, g, h))

  size_step :
      (f a : ℕ)
      → size (suc f) a ≡ (if leb a len then 1 else 0) + (size f (2 * a) + size f (2 * a + 1))
  size_step f a = elim (Bool-cases (leb a len)) [
    | inl e ↦ rw e (size_in f a (ground (arith, e)) ∙ omega arith)
    | inr e ↦ rw e (
        size_out (suc f) a (ground (arith, e))
        ∙ omega (
          arith,
          size_out f (2 * a) (ground (arith, e)),
          size_out f (2 * a + 1) (ground (arith, e)),
        ))
  ]

  -- The sum over a range.
  total : ℕ → ℕ → ℕ → ℕ
  total f a zero = 0
  total f a (suc n) = size f a + total f (a + 1) n

  total_zero : (a n : ℕ) → total 0 a n ≡ 0
  unfolding total size
  total_zero a zero = refl
  total_zero a (suc n) = omega (arith, total_zero (a + 1) n)

  -- Those below a range are the range and those below twice the range.
  level : (f a n : ℕ) → total (suc f) a n ≡ inside a n + total f (2 * a) (2 * n)
  unfolding total inside
  level f a zero = refl
  level f a (suc n) =
      let two : 2 * suc n ≡ suc (suc (2 * n)) = omega arith in
      let e : total f (2 * a) (2 * suc n)
          ≡ size f (2 * a) + (size f (2 * a + 1) + total f (2 * a + 1 + 1) (2 * n)) =
        ap (total f (2 * a)) two in
      let next : 2 * (a + 1) ≡ 2 * a + 1 + 1 = omega arith in
      let g : total f (2 * (a + 1)) (2 * n) ≡ total f (2 * a + 1 + 1) (2 * n) =
        ap (λ b. total f b (2 * n)) next in
      omega (arith, e, g, level f (a + 1) n, size_step f a)

  whole : (f a : ℕ) → 1 ≤ a → len < a + f → total f a a + a ≡ len + 1 + (a - (len + 1))
  whole zero a h k = omega (arith, total_zero a a, h, k)
  whole (suc f) a h k =
      let (p, q) = inside_lem a a in
      ground (arith, level f a a, whole f (2 * a) (omega arith) (omega arith), p, q)

  pub size_one : (f : ℕ) → len ≤ f → size f 1 ≡ len
  unfolding total
  size_one f h =
      let e : total f 1 1 ≡ size f 1 + 0 = refl in
      omega (arith, whole f 1 (omega arith) (omega arith), e)
