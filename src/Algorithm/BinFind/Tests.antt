-- ===== src/Algorithm/BinFind/Tests.antt =====
-- Runs of `bin_find` of algorithm/algo_sort.h, and its theorem at a concrete input.
use selib.Prelude.{ℕ, zero, suc, ◌≡◌, refl, some, List, [], ◌∷◌, arith}
use selib.Prelude.Int.{ℤ, pos, negsuc, ◌+ℤ◌}
use selib.Algorithm.BinFind.{bin_find}
use selib.Algorithm.BinFind.Laws.{IsAscending, IsFound, bin_find_lem}

abbrev sample : List ℕ
sample = 2 ∷ 5 ∷ 9 ∷ []

sample-IsAscending : IsAscending sample
unfolding IsAscending
sample-IsAscending zero zero h l = omega arith
sample-IsAscending zero (suc zero) h l = omega arith
sample-IsAscending zero (suc (suc zero)) h l = omega arith
sample-IsAscending (suc zero) (suc zero) h l = omega arith
sample-IsAscending (suc zero) (suc (suc zero)) h l = omega arith
sample-IsAscending (suc (suc zero)) (suc (suc zero)) h l = omega arith
sample-IsAscending (suc i) zero h l = absurd (omega arith)
sample-IsAscending (suc (suc i)) (suc zero) h l = absurd (omega arith)
sample-IsAscending (suc (suc (suc i))) (suc (suc zero)) h l = absurd (omega arith)
sample-IsAscending i (suc (suc (suc j))) h l = absurd (omega arith)

bin_find_lem_example : (r : ℤ) × (bin_find 4 sample 9 ≡ some r) × IsFound sample 9 r
bin_find_lem_example = bin_find_lem 4 sample 9 sample-IsAscending (omega arith)

bin_find-sample : bin_find 4 sample 9 ≡ some (pos 2)
unfolding bin_find ◌+ℤ◌
bin_find-sample = refl

-- A missing value above the smallest element gets a position.
bin_find_missing : bin_find 4 sample 7 ≡ some (pos 1)
unfolding bin_find ◌+ℤ◌
bin_find_missing = refl

bin_find_least : bin_find 4 sample 1 ≡ some (negsuc 0)
unfolding bin_find
bin_find_least = refl
