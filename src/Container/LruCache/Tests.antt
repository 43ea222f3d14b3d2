-- ===== src/Container/LruCache/Tests.antt =====
-- Runs of container/circle_cache.h with four slots, and its theorems at concrete inputs.
use selib.Prelude.{
  ℕ, ◌<◌, ◌≤◌, ◌≡◌, refl, sym, ap, ◌∙◌, Bool, true, false, Option, none, some, List, [], ◌∷◌, arith,
  length, replicate,
}
use mathlib.Core.Path.{subst}
use mathlib.Core.Option.{some-injective}
use selib.Container.LruCache.{
  ListNode, LruCache, no_hash_node, invalid_index, init, put, get, rounds, quadratic_probing,
  rounds,
}
use selib.Container.LruCache.Valid.{IsCache}
use selib.Container.LruCache.Entries.{GetStep, PutStep, entries}
use selib.Container.LruCache.Outcome.{Framed}
use selib.Container.LruCache.Probe.{accepts}
use selib.Container.LruCache.Refines.{get_refines, put_refines}
use selib.Container.LruCache.RoundTrip.{put-get, any_hit, put_done}
use selib.Container.LruCache.Init.{init-IsCache, up}
use selib.Container.LruCache.Runs.{
  Call, put_call, get_call, Answer, done, found, run, Run, cache_refines,
}

abbrev slot_at : ℕ → ℕ → ListNode ℕ
slot_at n l = record { key = 0; next = n; last = l; bucket = invalid_index; v = none }

abbrev four : LruCache ℕ
four = record {
  hash = replicate 16 no_hash_node;
  list = slot_at 1 3 ∷ slot_at 2 0 ∷ slot_at 3 1 ∷ slot_at 0 2 ∷ [];
  head = 0;
  tail = 0;
  hash_size = 16;
  capacity = 4;
  max_probing = 3;
}

init-four : init true true 4 3 ≡ some (some four)
unfolding init
init-four = refl

-- After one `put`.
abbrev one_item : LruCache ℕ
one_item = record four {
  hash =
      no_hash_node
      ∷ no_hash_node
      ∷ no_hash_node
      ∷ no_hash_node
      ∷ no_hash_node
      ∷ record { key = 5; index = 0; raw_key = [] }
      ∷ replicate 10 no_hash_node;
  list =
      record { key = 5; next = 1; last = 3; bucket = 5; v = some 7 }
      ∷ slot_at 2 0
      ∷ slot_at 3 1
      ∷ slot_at 0 2
      ∷ [];
  head = 1;
}

put_one : put four 5 (some 7) [] true ≡ some (true, one_item)
unfolding put
put_one = refl

-- The entry of the first key is the oldest when the fourth one comes, unless it was read.
evicts : List (Call ℕ)
evicts =
    put_call 5 (some 7) [] true
    ∷ put_call 21 (some 8) [] true
    ∷ put_call 6 (some 9) [] true
    ∷ get_call 5 []
    ∷ put_call 37 (some 10) [] true
    ∷ get_call 21 []
    ∷ get_call 5 []
    ∷ []

run-evicts :
    (c : LruCache ℕ) × (run evicts four
      ≡ some (
        done true
            ∷ done true
            ∷ done true
            ∷ found (some 7)
            ∷ done true
            ∷ found none
            ∷ found (some 7)
            ∷ [],
        c,
      ))
unfolding evicts run put get
run-evicts = (_, refl)

-- A `get` of the key 0 takes an empty bucket for its own and reads out of the array.
get_zero : get four 0 [] ≡ none
unfolding get
get_zero = refl

-- A `put` that does not overwrite stores a second entry for its key, which `get` does not find.
no_overwrite_run :
    (c : LruCache ℕ) × (run
        (put_call 5 (some 7) [] true ∷ put_call 5 (some 8) [] false ∷ get_call 5 [] ∷ [])
        four
      ≡ some (done true ∷ done true ∷ found (some 7) ∷ [], c))
unfolding run put get
no_overwrite_run = (_, refl)

four-IsCache : IsCache four (up 1 3) []
four-IsCache =
    let (c, e, ok, _, _, _) = init-IsCache 4 3 (omega arith) (omega arith) in
    subst (λ d. IsCache d (up 1 3) [])
      (some-injective c four (some-injective (some c) (some four) (sym e ∙ init-four))) ok

one_item-IsCache : (frees : List ℕ) × (used : List ℕ) × IsCache one_item frees used
one_item-IsCache =
    let (d, c, frees, used, e, ok, _, _) =
      put_refines four four-IsCache 5 [] (some 7) true (λ z. omega (arith, z)) in
    (
      frees,
      used,
      subst (λ x. IsCache x frees used)
          (ap (λ x. x.1) (some-injective (d, c) (true, one_item) (sym e ∙ put_one))) ok,
    )

put_refines_example :
    (b : Bool) × (c : LruCache ℕ) × (frees : List ℕ) × (used : List ℕ) × (put four 5
        (some 7)
        []
        true
      ≡ some (b, c))
    × IsCache c frees used
    × Framed four c
    × PutStep 4 (5, [], some 7) (entries four []) b (entries c used)
put_refines_example = put_refines four four-IsCache 5 [] (some 7) true (λ z. omega (arith, z))

get_refines_example :
    (v : Option ℕ) × (c : LruCache ℕ) × (used : List ℕ) × (get one_item 5 [] ≡ some (v, c))
    × IsCache c one_item-IsCache.0 used
    × Framed one_item c
    × GetStep 5 [] (entries one_item one_item-IsCache.1) v (entries c used)
get_refines_example = get_refines one_item one_item-IsCache.2 5 [] (λ z. omega (arith, z))

put-get_example : (c : LruCache ℕ) × (get one_item 5 [] ≡ some (some 7, c))
put-get_example = put-get four four-IsCache 5 [] (λ z. omega (arith, z)) (some 7) one_item put_one

init-IsCache_example :
    (c : LruCache ℕ) × (init true true 4 3 ≡ some (some c))
    × IsCache c (up 1 3) []
    × (c.capacity ≡ 4)
    × (8 < c.hash_size)
    × (c.hash_size ≤ 16)
init-IsCache_example = init-IsCache 4 3 (omega arith) (omega arith)

put_done_example :
    (c : LruCache ℕ) × (put four 5 (some 7) [] true
      ≡ some (any_hit (quadratic_probing 16 5) (accepts four 5 [] true) (rounds four), c))
put_done_example = put_done four four-IsCache 5 [] (λ z. omega (arith, z)) (some 7) true

abbrev two_calls : List (Call ℕ)
two_calls = put_call 5 (some 7) [] true ∷ get_call 5 [] ∷ []

cache_refines_example :
    (c : LruCache ℕ) × (answers : List (Answer ℕ)) × (c' : LruCache ℕ) × (frees : List ℕ)
    × (used : List ℕ) × (init true true 4 3 ≡ some (some c))
    × (run two_calls c ≡ some (answers, c'))
    × IsCache c' frees used
    × Run two_calls c [] answers c' used
    × (length (entries c' used) < 4)
cache_refines_example =
    cache_refines 4 3 two_calls (omega arith) (omega arith)
      (λ z. omega (arith, z), (λ z. omega (arith, z), tt))
