-- ===== src/Algorithm/BinFind.antt =====
-- algorithm/algo_sort.h: `bin_find`, over a part of an array of numbers. A `none` is an access out of the
-- part, or a lack of fuel.
pub mod Laws
mod Tests
use selib.Prelude.{
  ℕ, zero, suc, ◌+◌, ◌-◌, ◌/◌, Option, none, some, true, false, List, ltb, ◌==◌, ◌>>=◌, get_elem?,
  length, take, drop, if◌then◌else◌,
}
use selib.Prelude.Int.{ℤ, pos, negsuc, ◌+ℤ◌}

-- `arr + n` is `drop n arr`, and the first `n` places of `arr` are `take n arr`. The fuel bounds the depth of
-- the recursion.
pub bin_find : ℕ → List ℕ → ℕ → Option ℤ
bin_find zero arr val = none
bin_find (suc fuel) arr val =
    let mid : ℕ = length arr / 2 in
    let above = bin_find fuel (drop (mid + 1) arr) val in
    let below = bin_find fuel (take mid arr) val in
    if ltb (length arr) 1
    then some (negsuc 0)
    else get_elem? arr mid >>= λ x.
        if val == x
        then some (pos mid)
        else if ltb x val
        then above >>= (λ r. some (pos (mid + 1) +ℤ r))
        else below
