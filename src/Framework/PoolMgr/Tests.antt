-- ===== src/Framework/PoolMgr/Tests.antt =====
-- A run of framework/shining_pool.h with one thread and a pool of two, and its theorems at that run.
use selib.Prelude.{ℕ, ◌≡◌, refl, true, false, none, some, List, [], ◌∷◌}
use selib.Container.ResourceStack
use selib.Container.ResourceStack.{ResourceStack, create, fresh, add_holder, produce, force_pop}
use selib.Container.ResourceStack.ListStack.{lists}
use selib.Framework.PoolMgr.{
  PoolMgr, begin_thread, loop_test, take, handle, give, init, start, push, pop, pop_first,
  pop_forced, work,
}
use selib.Framework.PoolMgr.System.{
  System, pop_call, force_call, push_call, work_call, Reach, here, later,
}
use selib.Framework.PoolMgr.Calls.{Inv}
use selib.Framework.PoolMgr.Safety.{started, pools_valid, push_succeeds, give_back_succeeds}

abbrev zeroth : System (List ℕ)
zeroth = started lists (λ i. true) 1 2

-- The caller has popped an element that was made for it.
abbrev popped : System (List ℕ)
popped = record {
  pm = record {
    producer_pool =
        some (record { producer = false; aviable = []; empty = 0 ∷ []; held = none ∷ [] });
    consumer_pool =
        some
          (record { producer = false; aviable = []; empty = 1 ∷ 0 ∷ []; held = none ∷ none ∷ [] });
    thread_ids = true;
    th_size = 1;
    alive = true;
    p_size = 1;
  };
  forcing = false;
  mine = 0 ∷ [];
  workers = begin_thread ∷ [];
  made = 1;
}

popped-Reach : Reach lists zeroth popped
unfolding started init start ResourceStack.create ResourceStack.fresh add_holder pop_first
    pop_forced ResourceStack.pop force_pop produce
popped-Reach =
    later (later here (pop_call zeroth none true _ refl refl))
      (force_call _ true true (some 0) _ refl refl)

-- The element is pushed, and the thread takes it and has worked on it.
abbrev worked_on : System (List ℕ)
worked_on = record popped {
  pm = record {
    producer_pool =
        some (record { producer = false; aviable = []; empty = 0 ∷ []; held = none ∷ [] });
    consumer_pool =
        some
          (record { producer = false; aviable = []; empty = 1 ∷ 0 ∷ []; held = none ∷ none ∷ [] });
    thread_ids = true;
    th_size = 1;
    alive = true;
    p_size = 1;
  };
  mine = [];
  workers = give 0 ∷ [];
}

worked_on-Reach : Reach lists zeroth worked_on
unfolding push work ResourceStack.push ResourceStack.pop
worked_on-Reach =
    later
      (later
        (later
          (later (later popped-Reach (push_call popped [] 0 [] true _ refl refl refl))
            (work_call _ true [] begin_thread loop_test [] _ refl refl))
          (work_call _ true [] loop_test take [] _ refl refl))
        (work_call _ true [] take (handle 0) [] _ refl refl))
      (work_call _ true [] (handle 0) (give 0) [] _ refl refl)

-- `pop` of the fresh pools makes an element.
pop_first_made : (pm : PoolMgr (List ℕ)) × (pop lists (some 0) true zeroth.pm ≡ some (some 0, pm))
unfolding started init start ResourceStack.create ResourceStack.fresh add_holder pop pop_first
    pop_forced ResourceStack.pop force_pop produce
pop_first_made = (_, refl)

pools_valid_example : Inv lists 2 worked_on
pools_valid_example = pools_valid lists (λ i. true) 1 2 (λ i h. refl) worked_on-Reach

push_succeeds_example : (pm : PoolMgr (List ℕ)) × (push lists (some 0) popped.pm ≡ some (true, pm))
push_succeeds_example = push_succeeds lists (λ i. true) 1 2 (λ i h. refl) popped-Reach [] 0 [] refl

give_back_succeeds_example :
    (rp : ResourceStack (List ℕ)) × (rp' : ResourceStack (List ℕ)) × (worked_on.pm.producer_pool
      ≡ some rp)
    × (ResourceStack.push lists (some 0) rp ≡ (true, rp'))
give_back_succeeds_example =
    give_back_succeeds lists (λ i. true) 1 2 (λ i h. refl) worked_on-Reach [] 0 [] refl
