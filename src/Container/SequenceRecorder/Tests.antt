-- ===== src/Container/SequenceRecorder/Tests.antt =====
-- Runs of container/sequence_recorder.h, and its theorems at concrete inputs.
use selib.Prelude.{
  ℕ, ◌+◌, ◌/◌, ◌≡◌, refl, some, List, [], ◌∷◌, ◌==◌, ◌>>=◌, arith, if◌then◌else◌, take, last,
  length,
}
use mathlib.Core.List.{foldl}
use selib.Container.SequenceRecorder.{
  SequenceRecorder, init, append, clear, get_every, get_sum, get_avg, get_count, get_density,
}
use selib.Container.SequenceRecorder.Laws.{append_all, append_all_reads, occurrences}

abbrev memory : List ℕ
memory = 7 ∷ 7 ∷ 7 ∷ []

abbrev values : List ℕ
values = 4 ∷ 5 ∷ 6 ∷ 5 ∷ 9 ∷ []

reads_after_wrap :
    (do r ← append_all 3 (init memory) values; get_every 3 r 2) ≡ some (6 ∷ 5 ∷ [], 3)
unfolding append_all init append get_every
reads_after_wrap = refl

reads_after_clear :
    (do
      r ← append_all 3 (init memory) values
      r' ← append_all 3 (clear r) (8 ∷ [])
      get_every 3 r' 9)
    ≡ some (8 ∷ [], 1)
unfolding append_all init append clear get_every
reads_after_clear = refl

append_all_reads_example :
    (r : SequenceRecorder ℕ) × (append_all 3 (init memory) values ≡ some r)
    × (get_every 3 r 2 ≡ some (take 2 (last 3 values), length (last 3 values)))
    × (get_sum 3 ◌+◌ 0 r ≡ some (foldl ◌+◌ 0 (last 3 values)))
    × (get_avg 3 ◌+◌ 0 ◌/◌ r
        ≡ some (
            if length (last 3 values) == 0
            then 0
            else foldl ◌+◌ 0 (last 3 values) / length (last 3 values)))
    × (get_count 3 ◌==◌ 5 r ≡ some (occurrences ◌==◌ 5 (last 3 values)))
    × (get_density 3 ◌==◌ 0 ◌/◌ 5 r
        ≡ some (
            if length (last 3 values) == 0
            then 0
            else occurrences ◌==◌ 5 (last 3 values) / length (last 3 values)))
append_all_reads_example =
    append_all_reads 3 memory values 2 ◌+◌ 0 ◌/◌ ◌==◌ 5 0 ◌/◌ (omega arith) (omega arith) refl
      (omega arith)
