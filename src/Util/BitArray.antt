-- ===== src/Util/BitArray.antt =====
-- util/bit_array.h: `BitArray`, a bit map over bytes, the highest bit of a byte first. A `none` is a
-- fault: a byte outside the buffer.
pub mod Bytes
pub mod Laws
mod Tests
use Prim.Native.Nat.{bit_and, bit_or}
use selib.Prelude.{
  ℕ, zero, suc, ◌+◌, ◌-◌, ◌*◌, ◌/◌, ◌%◌, ◌^◌, Bool, true, false, Option, none, some, List, ◌==◌,
  leb, if◌then◌else◌, ◌>>=◌, get_elem?, set, replicate,
}

-- The sizes are `uint32_t`, a byte of the buffer is `uint8_t`.
pub record BitArray : Type 0 where
  pub bits_buf : List ℕ
  pub pow_of_two : ℕ
  pub offset_mask : ℕ
  pub align_len : ℕ
  pub buf_len : ℕ

-- The loop of `create`, `for (; bits_len > 0; ) { ++_pow_of_two; bits_len >>= 1; }`. Each round halves
-- `bits_len`, so as many rounds as its value are enough.
pub count_shifts : ℕ → ℕ → ℕ → ℕ
count_shifts zero bits_len pow_of_two = pow_of_two
count_shifts (suc fuel) bits_len pow_of_two =
    let rest = count_shifts fuel (bits_len / 2) (pow_of_two + 1) in
    if bits_len == 0 then pow_of_two else rest

-- The number of bytes that `create` and `dump` compute.
abbrev pub byte_count : ℕ → ℕ
byte_count len = len / 8 + 1

-- `create`; `none` is the result `false`.
unfoldable pub create : Bool → ℕ → Option BitArray
unfolding count_shifts
create alloc len =
    if alloc
    then (let bits_len : ℕ = 8 in
        some (record {
          bits_buf = replicate (byte_count len) 0;
          pow_of_two = count_shifts bits_len (bits_len / 2) 0;
          offset_mask = bits_len - 1;
          align_len = bits_len - 1;
          buf_len = len;
        }))
    else none

-- `get_position`: the byte's index, and the bit in it.
unfoldable pub get_position : BitArray → ℕ → ℕ × ℕ
get_position b pos = (pos / 2 ^ b.pow_of_two, bit_and pos b.offset_mask)

-- `get_raw_bit`: the address is the index of the byte. `none` is `NULL`.
unfoldable pub get_raw_bit : BitArray → ℕ → Option (ℕ × ℕ)
unfolding get_position
get_raw_bit b pos = if leb b.buf_len pos then none else some (get_position b pos)

-- `t >> (_align_len - os)`, its lowest bit.
unfoldable pub bit_of : ℕ → ℕ → ℕ → Bool
bit_of align t os = bit_and (t / 2 ^ (align - os)) 1 == 1

-- `(TYPE)(1 << (_align_len - offset))`, and its complement.
unfoldable pub bit_mask : ℕ → ℕ → ℕ
bit_mask align offset = 2 ^ (align - offset) % 256

unfoldable pub clear_mask : ℕ → ℕ → ℕ
unfolding bit_mask
clear_mask align offset = 255 - bit_mask align offset

-- `test_bit`: the result, and what goes out through `ap` and `offset` where the position is in range.
unfoldable pub test_bit : BitArray → ℕ → Option (Bool × Option (ℕ × ℕ))
unfolding bit_of
test_bit b pos = elim (get_raw_bit b pos) [
  | none ↦ some (false, none)
  | some (idx, os) ↦ do t ← get_elem? b.bits_buf idx; some (bit_of b.align_len t os, some (idx, os))
]

pub set_bit : BitArray → ℕ → Option (Bool × BitArray)
unfolding bit_mask
set_bit b pos =
    if leb b.buf_len pos
    then some (false, b)
    else (let (idx, offset) = get_position b pos in
        do
          t ← get_elem? b.bits_buf idx
          some (
            true,
            record b { bits_buf = set b.bits_buf idx (bit_or t (bit_mask b.align_len offset)) },
          ))

pub clear_bit : BitArray → ℕ → Option (Bool × BitArray)
unfolding clear_mask
clear_bit b pos =
    if leb b.buf_len pos
    then some (false, b)
    else (let (idx, offset) = get_position b pos in
        do
          t ← get_elem? b.bits_buf idx
          some (
            true,
            record b { bits_buf = set b.bits_buf idx (bit_and t (clear_mask b.align_len offset)) },
          ))
