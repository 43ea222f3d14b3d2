-- ===== src/Container/ResourceStack.antt =====
-- container/resource_stack.h: `ResourceStack`. `Lifo`, the lock-free stack of another project, is a parameter
-- with what a stack does. Resources and holders have numbers as addresses, and a null pointer is `none`.
pub mod ListStack
pub mod Holders
pub mod Laws
pub mod Refine
pub mod Destroy
mod Tests
use selib.Prelude.{
  ℕ, zero, suc, ◌≡◌, Bool, true, false, Option, none, some, List, [], ◌∷◌, ◌++◌, if◌then◌else◌,
  get_or, set, length, ◌>>=◌,
}
use mathlib.Core.Option

-- `Lifo`: a stack of nodes, whose content the laws name `nodes`.
pub record Lifo (S : Type 0) : Type 0 where
  pub new : S
  pub push : ℕ → S → S
  pub pop : S → Option ℕ × S
  pub nodes : S → List ℕ
  pub nodes-new : nodes new ≡ []
  pub nodes-push : (n : ℕ) (s : S) → nodes (push n s) ≡ n ∷ nodes s
  pub pop_nil : (s : S) → nodes s ≡ [] → ((pop s).0 ≡ none) × (nodes (pop s).1 ≡ [])
  pub pop_cons :
      (s : S) (n : ℕ) (l : List ℕ) → nodes s ≡ n ∷ l → ((pop s).0 ≡ some n) × (nodes (pop s).1 ≡ l)

-- `ResourceStack`. `held` has the `_p` of each holder, by its address; `producer` says whether `_producer` is
-- set.
pub record ResourceStack (S : Type 0) : Type 0 where
  pub producer : Bool
  pub aviable : S
  pub empty : S
  pub held : List (Option ℕ)

-- What a `destroy` gives up: the holders that are deleted, and the resources handed to the `destroy` of
-- `_producer_inst`.
pub record Freed : Type 0 where
  pub holders : List ℕ
  pub resources : List (Option ℕ)

-- The resources of the holders that the second loop of `destroy` takes. Where `_producer` is null it calls
-- `destroy` through it: an inner fault, `none`.
pub give_back : Bool → List (Option ℕ) → List ℕ → Option (List (Option ℕ))
give_back producer held [] = some []
give_back producer held (h ∷ hs) =
    let rest = give_back producer held hs in
    if producer then elim rest [ none ↦ none | some xs ↦ some (get_or held h none ∷ xs) ] else none

module _ {S : Type 0} (lifo : Lifo S) where
  -- The constructor.
  unfoldable pub fresh : ResourceStack S
  fresh = record { producer = false; aviable = lifo.new; empty = lifo.new; held = [] }

  -- `bind` of a producer.
  pub bind : ResourceStack S → ResourceStack S
  bind r = record r { producer = true }

  unfoldable pub push : Option ℕ → ResourceStack S → Bool × ResourceStack S
  push none r = (false, r)
  push (some x) r =
      let (hoder, rest) = lifo.pop r.empty in
      elim hoder [
        | none ↦ (false, record r { empty = rest })
        | some h ↦ (
          true,
          record r { empty = rest; held = set r.held h (some x); aviable = lifo.push h r.aviable },
        )
      ]

  unfoldable pub pop : ResourceStack S → Option ℕ × ResourceStack S
  pop r =
      let (hoder, rest) = lifo.pop r.aviable in
      elim hoder [
        | none ↦ (none, record r { aviable = rest })
        | some h ↦ (
          get_or r.held h none,
          record r { aviable = rest; held = set r.held h none; empty = lifo.push h r.empty },
        )
      ]

  -- A new holder, put on the stack of the empty ones.
  unfoldable pub add_holder : ResourceStack S → ResourceStack S
  add_holder r = record r { held = r.held ++ none ∷ []; empty = lifo.push (length r.held) r.empty }

  -- The loop of `create`; `alloc` says of each round left whether its `new` succeeds.
  unfoldable pub create : (ℕ → Bool) → ℕ → ResourceStack S → Bool × ResourceStack S
  unfolding add_holder
  create alloc zero r = (true, r)
  create alloc (suc n) r =
      let rest = create alloc n (add_holder r) in if alloc n then rest else (false, r)

  -- `produce`; `made` is what the producer in use gives, and `alloc` is about the holder.
  unfoldable pub produce : Option ℕ → Bool → ResourceStack S → Option ℕ × ResourceStack S
  unfolding add_holder
  produce none alloc r = (none, r)
  produce (some x) alloc r = if alloc then (some x, add_holder r) else (none, r)

  unfoldable pub force_pop : Option ℕ → Bool → ResourceStack S → Option ℕ × ResourceStack S
  unfolding pop produce
  force_pop made alloc r =
      let (b, r') = pop r in elim b [ none ↦ produce made alloc r' | some x ↦ (some x, r') ]

  -- The loop that empties a stack, on fuel: the holders that it deletes.
  pub drain : ℕ → S → Option (List ℕ)
  drain zero s = none
  drain (suc fuel) s =
      let (hoder, rest) = lifo.pop s in
      let later = drain fuel rest in
      elim hoder [ none ↦ some [] | some h ↦ elim later [ none ↦ none | some hs ↦ some (h ∷ hs) ] ]

  -- `destroy`: an outer `none` is a lack of fuel, an inner one the fault.
  pub destroy : ℕ → ResourceStack S → Option (Option Freed)
  unfolding drain give_back
  destroy fuel r = do
    es ← drain fuel r.empty
    hs ← drain fuel r.aviable
    some (
        Option.map (λ xs. record { holders = es ++ hs; resources = xs })
          (give_back r.producer r.held hs))
