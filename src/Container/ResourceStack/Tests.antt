-- ===== src/Container/ResourceStack/Tests.antt =====
-- Runs of container/resource_stack.h on lists as stacks, and its theorems at concrete inputs.
use selib.Prelude.{ℕ, ◌≡◌, refl, true, false, none, some, List, [], ◌∷◌, arith}
use selib.Container.ResourceStack.{ResourceStack, fresh, create, destroy}
use selib.Container.ResourceStack.ListStack.{lists}
use selib.Container.ResourceStack.Holders.{IsNew, IsDistinct, IsApart, Holding}
use selib.Container.ResourceStack.Laws.{Shows}
use selib.Container.ResourceStack.Refine.{
  Op, put, get, force, stored, got, run, list_run, list_step, stack_refines,
}
use selib.Container.ResourceStack.Destroy.{freed, destroy_lem}

abbrev calls : List Op
calls =
    get
    ∷ put (some 7)
    ∷ put none
    ∷ put (some 8)
    ∷ put (some 9)
    ∷ get
    ∷ force (some 5) true
    ∷ force (some 6) true
    ∷ put (some 1)
    ∷ put (some 2)
    ∷ put (some 3)
    ∷ put (some 4)
    ∷ []

list_run-calls :
    list_run [] 2 calls
    ≡ got none
      ∷ stored true
      ∷ stored false
      ∷ stored true
      ∷ stored false
      ∷ got (some 8)
      ∷ got (some 7)
      ∷ got (some 6)
      ∷ stored true
      ∷ stored true
      ∷ stored true
      ∷ stored false
      ∷ []
unfolding list_run list_step
list_run-calls = refl

stack_refines_example :
    run lists (create lists (λ i. true) 2 (fresh lists)).1 calls ≡ list_run [] 2 calls
stack_refines_example = stack_refines lists (λ i. true) 2 calls (λ i l. refl)

-- A stack of two holders, of which the first holds a resource.
abbrev one : ResourceStack (List ℕ)
one = record { producer = false; aviable = 0 ∷ []; empty = 1 ∷ []; held = some 7 ∷ none ∷ [] }

one-Shows : Shows lists one (0 ∷ []) (1 ∷ []) (7 ∷ [])
unfolding Shows IsDistinct IsNew IsApart Holding
one-Shows = (
  refl,
  refl,
  (omega arith, tt, tt),
  (omega arith, tt, tt),
  ((λ e. omega arith, tt), tt),
  (refl, tt),
)

destroy_lem_example : destroy lists 3 one ≡ some (freed false (1 ∷ 0 ∷ []) (7 ∷ []))
destroy_lem_example =
    destroy_lem lists 3 one (0 ∷ []) (1 ∷ []) (7 ∷ []) one-Shows (omega arith) (omega arith)

freed-unbound : freed false (1 ∷ 0 ∷ []) (7 ∷ []) ≡ none
unfolding freed
freed-unbound = refl
