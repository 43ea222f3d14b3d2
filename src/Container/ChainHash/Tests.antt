-- ===== src/Container/ChainHash/Tests.antt =====
-- Runs of container/chain_hash.h, and its theorems at concrete inputs.
use selib.Prelude.{ℕ, ◌≡◌, refl, true, false, none, some, List, [], ◌∷◌, arith}
use selib.Container.ChainHash.{ChainHashMap, create, find, insert, remove, clear}
use selib.Container.ChainHash.Laws.{IsValid, contents, create-IsValid}
use selib.Container.ChainHash.Refine.{
  Op, look, put, drop, wipe, found, accepted, done, run, dict_run, run_refines,
}

abbrev empty : ChainHashMap ℕ
empty = record { table = [] ∷ [] ∷ [] ∷ []; bucket_num = 3 }

-- The keys 1, 4 and 7 share a chain.
abbrev calls : List (Op ℕ)
calls =
    put true 1 10 true
    ∷ put true 4 40 true
    ∷ put true 7 70 true
    ∷ put true 4 44 false
    ∷ look 4
    ∷ put true 4 45 true
    ∷ look 4
    ∷ drop 1
    ∷ look 1
    ∷ look 7
    ∷ put false 9 90 true
    ∷ look 9
    ∷ wipe
    ∷ look 7
    ∷ []

run-calls :
    run empty calls
    ≡ some (
        accepted true
        ∷ accepted true
        ∷ accepted true
        ∷ accepted true
        ∷ found (some 40)
        ∷ accepted true
        ∷ found (some 45)
        ∷ done
        ∷ found none
        ∷ found (some 70)
        ∷ accepted false
        ∷ found none
        ∷ done
        ∷ found none
        ∷ [])
unfolding run find insert remove clear
run-calls = refl

create_fails : create {V = ℕ} false 3 ≡ none
unfolding create
create_fails = refl

-- A table of no chains faults: the key is reduced modulo zero.
find-zero : find {V = ℕ} (record { table = []; bucket_num = 0 }) 5 ≡ none
unfolding find
find-zero = refl

empty-IsValid : IsValid empty
unfolding create
empty-IsValid = create-IsValid 3 (omega arith) (omega arith) refl

run_refines_example : run empty calls ≡ some (dict_run (contents empty) calls)
run_refines_example = run_refines calls empty-IsValid
