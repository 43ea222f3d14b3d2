-- ===== src/Algorithm/HeapSort.antt =====
-- algorithm/heap_sort.h: `HeapSort`, over numbers. A `none` outside is a fault: an access out of the array, through
-- a null pointer, or through a pointer that was never set.
pub mod Settle
pub mod Sizes
pub mod Build
pub mod Laws
mod Tests
use selib.Prelude.{
  ℕ, zero, suc, ◌+◌, ◌*◌, Bool, true, false, ◌&&◌, Option, none, some, List, ltb, leb,
  if◌then◌else◌, ◌>>=◌, get_elem?, length,
}

-- A `node_t *`: null, with no value set, or a node.
pub data Link : Type 0 where
  null : Link
  wild : Link
  node : ℕ → Link → Link → Link

-- A pointer of a new node. It is null where the memory happens to be zero.
pub unset : Bool → Link
unset true = null
unset false = wild

-- `_build`, with positions without a bound, which are `int` in the code; where `arr` has `len` elements: the new node and `pos`. `alloc` says of the node for each position
-- whether its `new` succeeds; the fuel bounds the depth.
pub build_node : Bool → (ℕ → Bool) → List ℕ → ℕ → ℕ → ℕ → Option (Link × ℕ)
unfolding unset
build_node zeroed alloc arr zero parent pos = none
build_node zeroed alloc arr (suc fuel) parent pos = do
  v ← get_elem? arr pos
  elim (alloc pos) [
    | false ↦ none
    | true ↦ elim (ltb (pos + 1) (length arr) && leb (2 * parent) (length arr)) [
      | false ↦ some (node v (unset zeroed) (unset zeroed), pos)
      | true ↦ do
        (left, p) ← build_node zeroed alloc arr fuel (2 * parent) (pos + 1)
        elim (ltb (p + 1) (length arr) && leb (2 * parent + 1) (length arr)) [
          | false ↦ some (node v left (unset zeroed), p)
          | true ↦ do
            (right, q) ← build_node zeroed alloc arr fuel (2 * parent + 1) (p + 1)
            some (node v left right, q)
        ]
    ]
  ]

-- `build`; each level has at least one position, so their number is enough fuel.
pub build : Bool → (ℕ → Bool) → List ℕ → Option Link
unfolding build_node
build zeroed alloc arr = do (t, pos) ← build_node zeroed alloc arr (length arr + 1) 1 0; some t

-- The swap of the value of a node with that of its child, where `before` says so.
pub lift : (ℕ → ℕ → Bool) → ℕ → Link → ℕ × Link
lift before v null = (v, null)
lift before v wild = (v, wild)
lift before v (node w l r) = if before v w then (w, node v l r) else (v, node w l r)

-- `_max` and `_min`, by the test.
pub settle : (ℕ → ℕ → Bool) → Link → Option Link
unfolding lift
settle before null = some null
settle before wild = none
settle before (node v l r) = do
  l' ← settle before l
  r' ← settle before r
  some (
      node (lift before (lift before v l').0 r').0 (lift before v l').1
        (lift before (lift before v l').0 r').1)

-- The value of the root, where there is one.
pub top : Link → Option ℕ
top null = none
top wild = none
top (node v l r) = some v

pub max_node : Link → Option Link
unfolding settle
max_node t = settle (λ a b. ltb a b) t

pub min_node : Link → Option Link
unfolding settle
min_node t = settle (λ a b. ltb b a) t

-- `max` and `min`; a null pointer is `none` inside.
pub max : Link → Option (Option ℕ × Link)
unfolding max_node top
max root = do t ← max_node root; some (top t, t)

pub min : Link → Option (Option ℕ × Link)
unfolding min_node top
min root = do t ← min_node root; some (top t, t)
