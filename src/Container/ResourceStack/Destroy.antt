-- ===== src/Container/ResourceStack/Destroy.antt =====
-- container/resource_stack.h: `destroy`.
use selib.Prelude.{
  ℕ, zero, suc, ◌<◌, ◌≡◌, refl, ap, Bool, true, false, Option, none, some, List, [], ◌∷◌, ◌++◌,
  length, arith, map,
}
use mathlib.Core.Option
use selib.Container.ResourceStack.{Lifo, ResourceStack, Freed, drain, give_back, destroy}
use selib.Container.ResourceStack.Holders.{Holding}
use selib.Container.ResourceStack.Laws.{Shows}

-- What is freed of some holders and resources, or a fault: a resource is to be destroyed by no producer.
unfoldable pub freed : Bool → List ℕ → List ℕ → Option Freed
freed producer holders [] = some (record { holders = holders; resources = [] })
freed true holders (x ∷ xs) = some (record { holders = holders; resources = map some (x ∷ xs) })
freed false holders (x ∷ xs) = none

give_back_bound :
    (held : List (Option ℕ)) (hs xs : List ℕ)
    → Holding held hs xs
    → give_back true held hs ≡ some (map some xs)
unfolding give_back Holding
give_back_bound held [] [] k = refl
give_back_bound held [] (x ∷ xs) k = elim k [ ]
give_back_bound held (h ∷ hs) [] k = elim k [ ]
give_back_bound held (h ∷ hs) (x ∷ xs) (k, ks) = rw (give_back_bound held hs xs ks, k)

freed_lem :
    (b : Bool) (held : List (Option ℕ)) (hs es xs : List ℕ)
    → Holding held hs xs
    → Option.map (λ g. record { holders = es ++ hs; resources = g }) (give_back b held hs)
      ≡ freed b (es ++ hs) xs
unfolding freed Holding give_back
freed_lem b held [] es [] k = refl
freed_lem b held [] es (x ∷ xs) k = elim k [ ]
freed_lem b held (h ∷ hs) es [] k = elim k [ ]
freed_lem true held (h ∷ hs) es (x ∷ xs) (k, ks) = rw (give_back_bound held hs xs ks, k)
freed_lem false held (h ∷ hs) es (x ∷ xs) k = refl

module _ {S : Type 0} (lifo : Lifo S) where
  -- A stack is empty after as many rounds as it has nodes, and one more.
  drain_lem :
      (fuel : ℕ) (s : S) (l : List ℕ)
      → lifo.nodes s ≡ l
      → length l < fuel
      → drain lifo fuel s ≡ some l
  unfolding drain
  drain_lem zero s l e h = absurd (omega arith)
  drain_lem (suc fuel) s [] e h = let (took, left) = lifo.pop_nil s e in ground (arith, took)
  drain_lem (suc fuel) s (n ∷ l) e h =
      let (took, left) = lifo.pop_cons s n l e in
      ground (arith, took, drain_lem fuel (lifo.pop s).1 l left (omega arith))

  -- With fuel for all of its holders `destroy` deletes every holder, the free ones first, and hands the
  -- resources, the latest first, to the producer of the stack itself; but where no other producer was bound
  -- and a resource is left, it calls that missing producer.
  pub destroy_lem :
      (fuel : ℕ) (r : ResourceStack S) (hs es xs : List ℕ)
      → Shows lifo r hs es xs
      → length hs < fuel
      → length es < fuel
      → destroy lifo fuel r ≡ some (freed r.producer (es ++ hs) xs)
  unfolding Shows destroy freed
  destroy_lem fuel r hs es xs (a, b, da, de, p, k) lh le =
      rw (drain_lem fuel r.empty es b le, drain_lem fuel r.aviable hs a lh)
        (ap some (freed_lem r.producer r.held hs es xs k))
