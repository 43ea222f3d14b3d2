-- ===== src/Util/BitArray/Bytes.antt =====
-- One byte of util/bit_array.h: a write of one bit leaves the others.
use Prim.Native.Nat.{bit_and, bit_or}
use selib.Prelude.{
  ℕ, ◌+◌, ◌*◌, ◌/◌, ◌%◌, ◌<◌, ◌≡◌, refl, Bool, true, false, ◌&&◌, ◌||◌, ==_iff, ◌==◌, ltb, ltb→lt,
  and_parts, beq-eq, if◌then◌else◌, arith,
}
use selib.Prelude.Bits.{passes, passes_at}
use mathlib.Core.Bool.{beq}
use selib.Util.BitArray.{bit_of, bit_mask, clear_mask}

-- All bytes `t`, written bits `o` and read bits `p`, in one number: `t * 64 + o * 8 + p`.
abbrev set_good : ℕ → Bool
set_good n =
    let t = n / 64 in
    let o = n / 8 % 8 in
    let p = n % 8 in
    ltb (bit_or t (bit_mask 7 o)) 256
    && beq (bit_of 7 (bit_or t (bit_mask 7 o)) p) (if o == p then true else bit_of 7 t p)

set_table : passes set_good 16384 ≡ true
unfolding passes bit_of bit_mask
set_table = refl

abbrev clear_good : ℕ → Bool
clear_good n =
    let t = n / 64 in
    let o = n / 8 % 8 in
    let p = n % 8 in
    ltb (bit_and t (clear_mask 7 o)) 256
    && beq (bit_of 7 (bit_and t (clear_mask 7 o)) p) (if o == p then false else bit_of 7 t p)

clear_table : passes clear_good 16384 ≡ true
unfolding passes bit_of clear_mask
clear_table = refl

module _ (t o p : ℕ) (ht : t < 256) (ho : o < 8) (hp : p < 8) where
  code : ℕ
  code = t * 64 + o * 8 + p

  decoded : (code / 64 ≡ t) × (code / 8 % 8 ≡ o) × (code % 8 ≡ p) × (code < 16384)
  unfolding code
  decoded = omega arith

  -- Setting a bit of a byte gives a byte in which that bit is one and the others are as they were.
  pub set_byte :
      (bit_or t (bit_mask 7 o) < 256)
      × (bit_of 7 (bit_or t (bit_mask 7 o)) p ≡ (if o == p then true else bit_of 7 t p))
  set_byte =
      let (e, f, g, lt) = decoded in
      let good = passes_at set_good 16384 code lt set_table in
      let (a, b) = and_parts _ _ (rw (e, f, g) at good) in (ltb→lt _ _ a, beq-eq _ _ b)

  -- Clearing a bit of a byte.
  pub clear_byte :
      (bit_and t (clear_mask 7 o) < 256)
      × (bit_of 7 (bit_and t (clear_mask 7 o)) p ≡ (if o == p then false else bit_of 7 t p))
  clear_byte =
      let (e, f, g, lt) = decoded in
      let good = passes_at clear_good 16384 code lt clear_table in
      let (a, b) = and_parts _ _ (rw (e, f, g) at good) in (ltb→lt _ _ a, beq-eq _ _ b)

abbrev same_good : ℕ → Bool
same_good n = let t = n / 8 in let o = n % 8 in bit_of 7 t o || bit_and t (clear_mask 7 o) == t

same_table : passes same_good 2048 ≡ true
unfolding passes bit_of clear_mask
same_table = refl

-- Clearing a bit that is zero changes nothing.
pub clear_byte_same :
    (t o : ℕ) → t < 256 → o < 8 → bit_of 7 t o ≡ false → bit_and t (clear_mask 7 o) ≡ t
clear_byte_same t o ht ho h =
    let e : (t * 8 + o) / 8 ≡ t = omega arith in
    let f : (t * 8 + o) % 8 ≡ o = omega arith in
    let good = passes_at same_good 2048 (t * 8 + o) (omega arith) same_table in
    (==_iff _ _).0 (rw (e, f, h) at good)
