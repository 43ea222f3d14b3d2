-- ===== src/Algorithm/Sorted.antt =====
-- Ascending lists of numbers, for the sorts of algorithm/: each element is at most the next.
use selib.Prelude.{ℕ, ◌≤◌, List, [], ◌∷◌, ◌++◌, arith}

abbrev pub IsSorted : List ℕ → Type 0
IsSorted [] = Unit
IsSorted (x ∷ []) = Unit
IsSorted (x ∷ y ∷ l) = (x ≤ y) × IsSorted (y ∷ l)

-- At most the first element, if there is one.
abbrev pub IsBelow : ℕ → List ℕ → Type 0
IsBelow a [] = Unit
IsBelow a (x ∷ l) = a ≤ x

pub IsSorted-cons : (a : ℕ) (l : List ℕ) → IsBelow a l → IsSorted l → IsSorted (a ∷ l)
IsSorted-cons a [] b s = tt
IsSorted-cons a (x ∷ l) b s = (b, s)

pub IsSorted-tail : (a : ℕ) (l : List ℕ) → IsSorted (a ∷ l) → IsBelow a l × IsSorted l
IsSorted-tail a [] s = (tt, tt)
IsSorted-tail a (x ∷ l) s = s

pub IsBelow-trans : (a b : ℕ) (l : List ℕ) → a ≤ b → IsBelow b l → IsBelow a l
IsBelow-trans a b [] h k = tt
IsBelow-trans a b (x ∷ l) h k = omega arith

-- An element between its neighbours keeps the order.
pub IsSorted-insert :
    (l : List ℕ) (x a : ℕ) (r : List ℕ)
    → IsSorted (l ++ x ∷ r)
    → x ≤ a
    → IsBelow a r
    → IsSorted (l ++ x ∷ a ∷ r)
IsSorted-insert [] x a r s h b = (h, IsSorted-cons a r b (IsSorted-tail x r s).1)
IsSorted-insert (y ∷ []) x a r s h b = (s.0, IsSorted-insert [] x a r s.1 h b)
IsSorted-insert (y ∷ z ∷ l) x a r s h b = (s.0, IsSorted-insert (z ∷ l) x a r s.1 h b)
