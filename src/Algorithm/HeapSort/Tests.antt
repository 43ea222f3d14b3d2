-- ===== src/Algorithm/HeapSort/Tests.antt =====
-- A run of algorithm/heap_sort.h, and its theorems at it.
use selib.Prelude.{count, ℕ, ◌≤◌, ◌≡◌, refl, true, false, none, some, List, [], ◌∷◌, arith}
use selib.Algorithm.HeapSort.{Link, wild, node, build, max, min}
use selib.Algorithm.HeapSort.Settle.{elements}
use selib.Algorithm.HeapSort.Laws.{extremes, unset_pointers}

abbrev five : List ℕ
five = 3 ∷ 1 ∷ 4 ∷ 1 ∷ 5 ∷ []

extremes_example :
    (t : Link) × (build true (λ i. true) five ≡ some t)
    × (elements t ≡ five)
    × ((v : ℕ) × (t' : Link) × (max t ≡ some (some v, t'))
        × (1 ≤ count v five)
        × ((x : ℕ) → 1 ≤ count x five → x ≤ v))
    × ((v : ℕ) × (t' : Link) × (min t ≡ some (some v, t'))
        × (1 ≤ count v five)
        × ((x : ℕ) → 1 ≤ count x five → v ≤ x))
extremes_example = extremes (λ i. true) five (λ i. refl) (omega arith)

build_pair : build false (λ i. true) (7 ∷ 8 ∷ []) ≡ some (node 7 (node 8 wild wild) wild)
unfolding build
build_pair = refl

unset_pointers_example :
    (max (node 7 (node 8 wild wild) wild) ≡ none) × (min (node 7 (node 8 wild wild) wild) ≡ none)
unset_pointers_example =
    unset_pointers (λ i. true) (7 ∷ 8 ∷ []) (node 7 (node 8 wild wild) wild) build_pair
