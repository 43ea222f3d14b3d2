-- ===== src/Container/LruCache/Sizes.antt =====
-- container/circle_cache.h: the bits of `get_bit_pos`.
use selib.Prelude.{
  ℕ, zero, suc, ◌+◌, ◌*◌, ◌/◌, ◌^◌, ◌<◌, ◌≤◌, ◌≡◌, ap, ◌∙◌, inl, inr, ◌==◌, arith, Bool-cases,
}
use native.Mathlib.Nat.{pow-suc}
use selib.Container.LruCache.{bit_pos_loop, get_bit_pos}

pub pow-add : (b : ℕ) → 2 ^ (b + 1) ≡ 2 ^ b * 2
pow-add b = ap (λ n. 2 ^ n) (omega arith) ∙ pow-suc 2 b

double_bounds :
    (v b : ℕ) → 2 ^ b ≤ v / 2 → v / 2 < 2 ^ (b + 1) → (2 ^ (b + 1) ≤ v) × (v < 2 ^ (b + 1 + 1))
double_bounds v b l u =
    let e : 2 ^ (b + 1) ≡ 2 ^ b * 2 = pow-add b in
    let f : 2 ^ (b + 1 + 1) ≡ 2 ^ (b + 1) * 2 = pow-add (b + 1) in
    (omega (arith, e, l), omega (arith, f, u))

bit_pos_loop_lem :
    (fuel v r : ℕ)
    → v ≤ fuel
    → 1 ≤ v
    → (b : ℕ) × (bit_pos_loop fuel v r ≡ r + b) × (2 ^ b ≤ v) × (v < 2 ^ (b + 1))
unfolding bit_pos_loop
bit_pos_loop_lem zero v r h one = absurd (omega arith)
bit_pos_loop_lem (suc fuel) v r h one = elim (Bool-cases (v / 2 == 0)) [
  | inl e ↦ (0, rw e (omega arith), omega arith, ground (arith, e))
  | inr e ↦
      let (b, f, l, u) = bit_pos_loop_lem fuel (v / 2) (r + 1) (omega arith) (ground (arith, e)) in
      let (l', u') = double_bounds v b l u in (b + 1, rw e (f ∙ omega arith), l', u')
]

-- `get_bit_pos` of a number that is not 0 is the position of its highest bit.
pub get_bit_pos_lem : (v : ℕ) → 1 ≤ v → (2 ^ get_bit_pos v ≤ v) × (v < 2 ^ (get_bit_pos v + 1))
unfolding get_bit_pos
get_bit_pos_lem v one =
    let (b, e, l, u) = bit_pos_loop_lem v v 0 (omega arith) one in
    let f : bit_pos_loop v v 0 ≡ b = e ∙ omega arith in rw f (l, u)
