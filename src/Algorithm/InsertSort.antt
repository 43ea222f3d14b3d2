-- ===== src/Algorithm/InsertSort.antt =====
-- algorithm/algo_sort.h: `insert_sort`, over an array of numbers. A `none` is an access out of the array.
pub mod Laws
mod Tests
use selib.Prelude.{
  ℕ, zero, suc, ◌+◌, ◌-◌, true, false, ◌<◌, Option, none, some, List, ltb, if◌then◌else◌, ◌>>=◌,
  get_elem?, set, length, leb,
}

-- `arr[i] = v`
pub write : List ℕ → ℕ → ℕ → Option (List ℕ)
write arr i v = if ltb i (length arr) then some (set arr i v) else none

-- The inner loop. `j` starts at `i - 1` and goes down to -1; the argument is `j + 1`. The result is the
-- array and `j + 1`.
pub shift : ℕ → ℕ → List ℕ → Option (List ℕ × ℕ)
shift key zero arr = some (arr, 0)
shift key (suc j) arr = do
  x ← get_elem? arr j
  elim (ltb key x) [
    | true ↦ do arr' ← write arr (j + 1) x; shift key j arr'
    | false ↦ some (arr, suc j)
  ]

-- One round of the outer loop.
pub round : ℕ → List ℕ → Option (List ℕ)
round i arr = do key ← get_elem? arr i; (arr', place) ← shift key i arr; write arr' place key

-- The outer loop: the rounds left, from `i` on.
pub rounds : ℕ → ℕ → List ℕ → Option (List ℕ)
rounds zero i arr = some arr
rounds (suc n) i arr = do arr' ← round i arr; rounds n (i + 1) arr'

pub insert_sort : List ℕ → Option (List ℕ)
insert_sort arr = rounds (length arr - 1) 1 arr
