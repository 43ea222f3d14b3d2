-- ===== src/Container/PChainMap/Tests.antt =====
-- A run of container/pchain_map.h, and its theorem at a concrete input.
use selib.Prelude.{ℕ, ◌≡◌, refl, true, false, none, some, List, [], ◌∷◌, map, arith}
use selib.Util.BitArray.{BitArray}
use selib.Util.BitArray
use selib.Container.ChainHash
use selib.Container.ChainHash.Laws as Table
use selib.Container.ChainHash.Refine.{dict_run}
use selib.Container.PChainMap.{PChainMap, create, find}
use selib.Container.PChainMap.Laws.{
  MapOp, ask, give, on_table, map_run, map_refines, create-IsQuiet,
}

abbrev no_locks : BitArray
no_locks = record { bits_buf = []; pow_of_two = 0; offset_mask = 0; align_len = 0; buf_len = 0 }

abbrev locks : BitArray
locks = record { bits_buf = 0 ∷ []; pow_of_two = 3; offset_mask = 7; align_len = 7; buf_len = 3 }

abbrev empty : PChainMap ℕ
empty = record {
  dict = record { table = [] ∷ [] ∷ [] ∷ []; bucket_num = 3 };
  array_lock = locks;
  bucket_num = 3;
}

empty-create : create true true no_locks 3 ≡ some empty
unfolding create ChainHash.create BitArray.create
empty-create = refl

abbrev calls : List (MapOp ℕ)
calls =
    give true 1 10 ∷ give true 4 40 ∷ ask 1 ∷ give true 1 11 ∷ ask 1 ∷ ask 7 ∷ give false 9 90 ∷ []

map_refines_example :
    map_run empty calls ≡ some (dict_run (Table.contents empty.dict) (map on_table calls))
map_refines_example =
    map_refines calls empty
      (create-IsQuiet 3 no_locks empty (omega arith) (omega arith) empty-create)

find-null : find empty 1 false ≡ some (none, empty)
unfolding find
find-null = refl
