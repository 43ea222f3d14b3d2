-- ===== src/Util/BitArray/Tests.antt =====
-- Runs of util/bit_array.h, and its theorems at concrete inputs.
use selib.Prelude.{◌≡◌, refl, true, false, some, [], ◌∷◌, arith}
use selib.Util.BitArray.{BitArray, create, test_bit, set_bit, clear_bit, get_raw_bit}
use selib.Util.BitArray.Laws.{
  IsValid, Writes, create_lem, test_bit_lem, set_bit_lem, clear_bit_lem, contents,
}

abbrev small : BitArray
small = record {
  bits_buf = 0 ∷ 0 ∷ [];
  pow_of_two = 3;
  offset_mask = 7;
  align_len = 7;
  buf_len = 10;
}

create-small : create true 10 ≡ some small
unfolding create
create-small = refl

-- Bit 9 is the second highest one of the second byte.
set-nine : set_bit small 9 ≡ some (true, record small { bits_buf = 0 ∷ 64 ∷ [] })
unfolding set_bit selib.Util.BitArray.get_position
set-nine = refl

-- Position 10 is out of range, though its bit is in the buffer.
set-ten : set_bit small 10 ≡ some (false, small)
unfolding set_bit
set-ten = refl

small-IsValid : IsValid small
unfolding create
small-IsValid = (create_lem 10 (omega arith) create-small).0

set_bit_lem_example : Writes small 9 true (set_bit small 9)
set_bit_lem_example = set_bit_lem 9 small-IsValid

clear_bit_lem_example : Writes small 9 false (clear_bit small 9)
clear_bit_lem_example = clear_bit_lem 9 small-IsValid

test_bit_lem_example : test_bit small 9 ≡ some (contents small 9, some (1, 1))
test_bit_lem_example = test_bit_lem 9 small-IsValid
