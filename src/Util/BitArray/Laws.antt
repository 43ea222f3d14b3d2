-- ===== src/Util/BitArray/Laws.antt =====
-- util/bit_array.h as a set of positions.
use Prim.Native.Nat.{bit_and, bit_or}
use selib.Prelude.{
  ℕ, ◌-◌, sym, ◌/◌, ◌%◌, ◌^◌, ◌<◌, ◌≡◌, ◌∙◌, ap, refl, Bool, true, false, Option, some, none, ◌&&◌,
  ◌==◌, ltb, leb, if◌then◌else◌, arith, length, get_or, set, get_elem?, get_or-set, length-set,
  length-replicate, get_or-replicate, get_elem?-eq-get_or, dec_lt,
}
use selib.Prelude.Bits.{bit_and-mask}
use mathlib.Core.Path.{subst}
use mathlib.Core.Option.{some-injective}
use native.Mathlib.Nat.{mod-lt, zero-div}
use selib.Util.BitArray.{
  BitArray, byte_count, create, get_position, get_raw_bit, bit_of, bit_mask, clear_mask, test_bit,
  set_bit, clear_bit,
}
use selib.Util.BitArray.Bytes.{set_byte, clear_byte}

-- What `create` fixes, and bytes in their range.
pub record IsValid (b : BitArray) : Type 0 where
  pub shift : b.pow_of_two ≡ 3
  pub mask : b.offset_mask ≡ 7
  pub align : b.align_len ≡ 7
  pub small : b.buf_len < 2 ^ 32
  pub size : length b.bits_buf ≡ byte_count b.buf_len
  pub bytes : (i : ℕ) → get_or b.bits_buf i 0 < 256

-- The abstract view: which positions are set. The bits of a byte count from its highest one, so that the one of
-- place `p % 8` has the weight `2 ^ (7 - p % 8)`.
pub contents : BitArray → ℕ → Bool
contents b p =
    if ltb p b.buf_len then get_or b.bits_buf (p / 8) 0 / 2 ^ (7 - p % 8) % 2 == 1 else false

bit_of_lem : (t o : ℕ) → bit_of 7 t o ≡ (t / 2 ^ (7 - o) % 2 == 1)
unfolding bit_of
bit_of_lem t o = ap (λ x. x == 1) (bit_and-mask (t / 2 ^ (7 - o)) 1)

contents_by :
    (b : BitArray) (p : ℕ)
    → contents b p
      ≡ (if ltb p b.buf_len then bit_of 7 (get_or b.bits_buf (p / 8) 0) (p % 8) else false)
unfolding contents
contents_by b p =
    ap (λ x. if ltb p b.buf_len then x else false)
      (sym (bit_of_lem (get_or b.bits_buf (p / 8) 0) (p % 8)))

get_position_lem : {b : BitArray} (p : ℕ) → IsValid b → get_position b p ≡ (p / 8, p % 8)
unfolding get_position
get_position_lem p v = rw (v.shift, v.mask, bit_and-mask p 3)

pub byte_in : {b : BitArray} (p : ℕ) → IsValid b → p < b.buf_len → p / 8 < length b.bits_buf
byte_in p v h = omega (arith, v.size)

pub read_byte :
    {b : BitArray} (p : ℕ)
    → IsValid b
    → p < b.buf_len
    → get_elem? b.bits_buf (p / 8) ≡ some (get_or b.bits_buf (p / 8) 0)
read_byte {b} p v h = get_elem?-eq-get_or b.bits_buf (p / 8) 0 (byte_in p v h)

pub test_true : {p n : ℕ} → p < n → (leb n p ≡ false) × (ltb p n ≡ true)
test_true h = ground arith

pub test_false : {p n : ℕ} → ¬ (p < n) → (leb n p ≡ true) × (ltb p n ≡ false)
test_false h = ground arith

get_raw_bit_in :
    {b : BitArray} (p : ℕ) → IsValid b → p < b.buf_len → get_raw_bit b p ≡ some (p / 8, p % 8)
unfolding get_raw_bit
get_raw_bit_in {b} p v h = let (e, f) = test_true h in rw e (ap some (get_position_lem p v))

get_raw_bit_out : (b : BitArray) (p : ℕ) → ¬ (p < b.buf_len) → get_raw_bit b p ≡ none
unfolding get_raw_bit
get_raw_bit_out b p h = let (e, f) = test_false h in rw e

-- `test_bit` never reads outside the buffer. In range it tells whether the position is set, and gives out
-- the byte and the bit in it; out of range it returns false and gives out nothing.
pub test_bit_lem :
    {b : BitArray} (p : ℕ)
    → IsValid b
    → test_bit b p ≡ some (contents b p, if ltb p b.buf_len then some (p / 8, p % 8) else none)
unfolding test_bit
test_bit_lem {b} p v = elim (dec_lt p b.buf_len) [
  | yes h ↦
      let (e, f) = test_true h in
      rw (contents_by b p, f, get_raw_bit_in p v h, read_byte p v h, v.align, test_bit)
  | no h ↦ let (e, f) = test_false h in rw (contents_by b p, f, get_raw_bit_out b p h, test_bit)
]

pub contents_in :
    (b : BitArray) (p : ℕ)
    → p < b.buf_len
    → contents b p ≡ bit_of 7 (get_or b.bits_buf (p / 8) 0) (p % 8)
contents_in b p h = let (e, f) = test_true h in contents_by b p ∙ rw f refl

pub contents_out : (b : BitArray) (p : ℕ) → ¬ (p < b.buf_len) → contents b p ≡ false
unfolding contents
contents_out b p h = let (e, f) = test_false h in rw f

-- A byte written in place of that of a position.
abbrev pub stored : BitArray → ℕ → ℕ → BitArray
stored b p t = record b { bits_buf = set b.bits_buf (p / 8) t }

module _ {b : BitArray} (p t : ℕ) (v : IsValid b) (h : p < b.buf_len) where
  pub stored-IsValid : t < 256 → IsValid (stored b p t)
  stored-IsValid ht = record {
    shift = v.shift;
    mask = v.mask;
    align = v.align;
    small = v.small;
    size = length-set b.bits_buf (p / 8) t ∙ v.size;
    bytes = λ i. ground (arith, get_or-set b.bits_buf (p / 8) i t 0 (byte_in p v h), v.bytes i);
  }

  pub contents-stored :
      (new : Bool)
      → ((o : ℕ)
          → o < 8
          → bit_of 7 t o ≡ (if p % 8 == o then new else bit_of 7 (get_or b.bits_buf (p / 8) 0) o))
      → (q : ℕ) → contents (stored b p t) q ≡ (if p == q then new else contents b q)
  contents-stored new w q =
      contents_by (stored b p t) q
      ∙ ground (
        arith,
        get_or-set b.bits_buf (p / 8) (q / 8) t 0 (byte_in p v h),
        w (q % 8) (mod-lt q (omega arith)),
      )
      ∙ ap (λ x. if p == q then new else x) (sym (contents_by b q))

-- A call that writes a bit returns whether the position is in range, keeps the invariant and the length,
-- and gives the new value to the position, if it is in range, and to no other.
abbrev pub Writes : BitArray → ℕ → Bool → Option (Bool × BitArray) → Type 0
Writes b p new r =
    (b' : BitArray) × (r ≡ some (ltb p b.buf_len, b'))
    × IsValid b'
    × (b'.buf_len ≡ b.buf_len)
    × ((q : ℕ) → contents b' q ≡ (if ltb p b.buf_len && p == q then new else contents b q))

-- `set_bit` returns true exactly for a position in range, which it sets; no other position changes,
-- nothing outside the buffer is touched, and the invariant is kept.
pub set_bit_lem : {b : BitArray} (p : ℕ) → IsValid b → Writes b p true (set_bit b p)
unfolding set_bit
set_bit_lem {b} p v = elim (dec_lt p b.buf_len) [
  | yes h ↦
      let (e, f) = test_true h in
      let old : ℕ = get_or b.bits_buf (p / 8) 0 in
      let t : ℕ = bit_or old (bit_mask 7 (p % 8)) in
      let byte = λ (o : ℕ) (ho : o < 8).
        set_byte old (p % 8) o (v.bytes (p / 8)) (mod-lt p (omega arith)) ho in
      (
        stored b p t,
        rw (e, f, get_position_lem p v, read_byte p v h, v.align),
        stored-IsValid p t v h (byte 0 (omega arith)).0,
        refl,
        rw f (contents-stored p t v h true (λ o ho. (byte o ho).1)),
      )
  | no h ↦ let (e, f) = test_false h in (b, rw (e, f), v, refl, λ q. rw f)
]

-- `clear_bit` returns true exactly for a position in range, which it clears; no other position changes,
-- nothing outside the buffer is touched, and the invariant is kept.
pub clear_bit_lem : {b : BitArray} (p : ℕ) → IsValid b → Writes b p false (clear_bit b p)
unfolding clear_bit
clear_bit_lem {b} p v = elim (dec_lt p b.buf_len) [
  | yes h ↦
      let (e, f) = test_true h in
      let old : ℕ = get_or b.bits_buf (p / 8) 0 in
      let t : ℕ = bit_and old (clear_mask 7 (p % 8)) in
      let byte = λ (o : ℕ) (ho : o < 8).
        clear_byte old (p % 8) o (v.bytes (p / 8)) (mod-lt p (omega arith)) ho in
      (
        stored b p t,
        rw (e, f, get_position_lem p v, read_byte p v h, v.align),
        stored-IsValid p t v h (byte 0 (omega arith)).0,
        refl,
        rw f (contents-stored p t v h false (λ o ho. (byte o ho).1)),
      )
  | no h ↦ let (e, f) = test_false h in (b, rw (e, f), v, refl, λ q. rw f)
]

-- `create` gives an array in which no position is set, of the length asked for.
pub create_lem :
    (len : ℕ) {b : BitArray}
    → len < 2 ^ 32
    → create true len ≡ some b
    → IsValid b × (b.buf_len ≡ len) × ((q : ℕ) → contents b q ≡ false)
unfolding create contents
create_lem len small e =
    subst (λ b. IsValid b × (b.buf_len ≡ len) × ((q : ℕ) → contents b q ≡ false))
      (some-injective _ _ e)
      (
        record {
          shift = refl;
          mask = refl;
          align = refl;
          small = small;
          size = length-replicate (byte_count len) 0;
          bytes = λ i. rw get_or-replicate (omega arith);
        },
        refl,
        λ q. rw (get_or-replicate, zero-div) (ground arith),
      )
