-- ===== src/Container/ResourceStack/ListStack.antt =====
-- Lists as the stacks of container/resource_stack.h, for runs of the code that uses them.
use selib.Prelude.{ℕ, ◌≡◌, refl, Option, none, some, List, [], ◌∷◌}
use selib.Container.ResourceStack.{Lifo}

abbrev pub list_pop : List ℕ → Option ℕ × List ℕ
list_pop [] = (none, [])
list_pop (n ∷ l) = (some n, l)

pub list_pop_nil : (s : List ℕ) → s ≡ [] → ((list_pop s).0 ≡ none) × ((list_pop s).1 ≡ [])
list_pop_nil [] e = (refl, refl)
list_pop_nil (n ∷ s) e = cc

pub list_pop_cons :
    (s : List ℕ) (n : ℕ) (l : List ℕ) → s ≡ n ∷ l → ((list_pop s).0 ≡ some n) × ((list_pop s).1 ≡ l)
list_pop_cons [] n l e = cc
list_pop_cons (m ∷ s) n l e = (cc, cc)

abbrev pub lists : Lifo (List ℕ)
lists = record {
  new = [];
  push = λ n s. n ∷ s;
  pop = list_pop;
  nodes = λ s. s;
  nodes-new = refl;
  nodes-push = λ n s. refl;
  pop_nil = list_pop_nil;
  pop_cons = list_pop_cons;
}
