-- ===== src/Algorithm/InsertSort/Tests.antt =====
-- Runs of `insert_sort` of algorithm/algo_sort.h, and its theorem at a concrete input.
use selib.Prelude.{ℕ, ◌≡◌, refl, some, List, [], ◌∷◌}
use mathlib.Core.List.{Perm}
use selib.Algorithm.Sorted.{IsSorted}
use selib.Algorithm.InsertSort.{insert_sort, rounds, round, shift, write}
use selib.Algorithm.InsertSort.Laws.{insert_sort_lem}

abbrev sample : List ℕ
sample = 14 ∷ 7 ∷ 15 ∷ 2 ∷ 8 ∷ 8 ∷ []

insert_sort-sample : insert_sort sample ≡ some (2 ∷ 7 ∷ 8 ∷ 8 ∷ 14 ∷ 15 ∷ [])
unfolding insert_sort rounds round shift write
insert_sort-sample = refl

insert_sort_lem_example :
    (out : List ℕ) × (insert_sort sample ≡ some out) × IsSorted out × Perm out sample
insert_sort_lem_example = insert_sort_lem sample
