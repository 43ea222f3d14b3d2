-- ===== src/Prelude/Bits.antt =====
-- Masks and byte tables: `x & (2 ^ k - 1)` is the remainder by `2 ^ k`, and a statement about all
-- values below a bound is decided by evaluation.
use Prim.Native.Nat.{
  ℕ, zero, suc, ◌+◌, ◌-◌, ◌*◌, ◌/◌, ◌%◌, ◌^◌, ◌≤◌, ◌<◌, min, bit_and, digits, bit_and-bitwise,
}
use mathlib.Core.Path.{◌≡◌, ap, ◌∙◌, sym}
use mathlib.Core.Bool.{Bool, true, false}
use native.Mathlib.Nat.{zero-mod, div-add-mod, add-mul-mod_self_left, mod-eq_of_lt, mod-lt, pow-suc}
use native.Mathlib.Omega.{arith}

pub pow_pos : (k : ℕ) → 0 < 2 ^ k
pow_pos zero = omega arith
pow_pos (suc k) = omega (arith, pow-suc 2 k, pow_pos k)

-- The remainder by an even number, digit by digit.
mod-double : (a p : ℕ) → 0 < p → a / 2 % p * 2 + a % 2 ≡ a % (2 * p)
mod-double a p pos =
    let q : ℕ = a / 2 / p in
    let r : ℕ = a / 2 % p in
    let parts : a ≡ (r * 2 + a % 2) + 2 * p * q = grind (arith, div-add-mod (a / 2) p) in
    let low : r * 2 + a % 2 < 2 * p = omega (arith, mod-lt (a / 2) pos) in
    sym (
      ap (λ (n : ℕ). n % (2 * p)) parts
      ∙ add-mul-mod_self_left (r * 2 + a % 2) (2 * p) q
      ∙ mod-eq_of_lt low)

digits-mask : (n k a : ℕ) → a ≤ n → digits (λ b. zero) min n a (2 ^ k - 1) ≡ a % 2 ^ k
digits-mask zero k zero h = sym (zero-mod (2 ^ k))
digits-mask zero k (suc a) h = absurd (omega arith)
digits-mask (suc n) k zero h = sym (zero-mod (2 ^ k))
digits-mask (suc n) zero (suc a) h = omega (arith, digits-mask n zero (suc a / 2) (omega arith))
digits-mask (suc n) (suc k) (suc a) h =
    let double : 2 ^ suc k ≡ 2 * 2 ^ k = omega (arith, pow-suc 2 k) in
    let half : (2 ^ suc k - 1) / 2 ≡ 2 ^ k - 1 = omega (arith, double, pow_pos k) in
    let odd : (2 ^ suc k - 1) % 2 ≡ 1 = omega (arith, double, pow_pos k) in
    rw (half, odd, digits-mask n k (suc a / 2) (omega arith), double)
      (omega (arith, mod-double (suc a) (2 ^ k) (pow_pos k)))

pub bit_and-mask : (a k : ℕ) → bit_and a (2 ^ k - 1) ≡ a % 2 ^ k
bit_and-mask a k = bit_and-bitwise a (2 ^ k - 1) ∙ digits-mask a k a (omega arith)

-- A test that passes at all numbers below a bound, found by evaluation.
unfoldable pub passes : (ℕ → Bool) → ℕ → Bool
passes good zero = true
passes good (suc top) = elim (good top) [ true ↦ passes good top | false ↦ false ]

pub passes_at : (good : ℕ → Bool) (top x : ℕ) → x < top → passes good top ≡ true → good x ≡ true
unfolding passes
passes_at good zero x h e = elim h [ ]
passes_at good (suc top) x h e = ground (arith, passes_at good top x)
