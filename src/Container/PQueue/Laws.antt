-- ===== src/Container/PQueue/Laws.antt =====
-- container/pqueue.h: `push` and `front` one after the other, as operations on the list of the values. Of a
-- queue of one value `front` gives nothing.
use selib.Prelude.{
  ℕ, suc, ◌+◌, ◌-◌, ◌%◌, ◌^◌, ◌<◌, ◌≡◌, refl, true, false, Option, none, some, List, [], ◌∷◌, ◌++◌,
  get_elem?, set, length, arith, ne→==, eq→==,
}
use mathlib.Core.Path.{subst}
use selib.Container.PQueue.{
  Node, PQueue, create, new_node, link, set_tail, push, is_tail, take_first, front,
}
use selib.Container.PQueue.Segment.{
  Segment, get_elem?-front, get_elem?-end, Segment-set, tail_at, linked, Segment-linked,
}

is_tail_later : (a b : ℕ) → a < b → is_tail (some b) (some a) ≡ false
unfolding is_tail
is_tail_later a b l = ne→== b a (λ e. omega arith)

module _ {ℓ} {V : Type ℓ} where
  -- The values of a queue, in the order in which they came.
  unfoldable pub Shows : PQueue V → List V → Type ℓ
  Shows q vs = Segment q.heap 0 q.head_next none q.tail vs

  pub link_head :
      (qn : ℕ) (q : PQueue V) → q.tail ≡ none → link qn q ≡ some (record q { head_next = some qn })
  unfolding link
  link_head qn q t = ground (arith, t)

  link_node :
      (qn : ℕ) (q : PQueue V) (b : ℕ) (n : Node V)
      → q.tail ≡ some b
      → get_elem? q.heap b ≡ some (some n)
      → link qn q ≡ some (record q { heap = set q.heap b (some (record n { next = some qn })) })
  unfolding link
  link_node qn q b n t g = ground (arith, t, g)

  pub take_first_lem :
      (a : ℕ) (q : PQueue V) (n : Node V)
      → get_elem? q.heap a ≡ some (some n)
      → take_first a q
        ≡ some (
          some n.val,
          record q {
            head_next = n.next;
            heap = set q.heap a none;
            size = (q.size + 2 ^ 32 - 1) % 2 ^ 32;
          },
        )
  unfolding take_first
  take_first_lem a q n g = ground (arith, g)

  -- `push` puts its value behind the others.
  pub push-Shows :
      (x : V) (q : PQueue V) (vs : List V)
      → Shows q vs
      → (q' : PQueue V) × (push true x q ≡ some (true, q'))
        × Shows q' (vs ++ x ∷ [])
        × (q'.size ≡ (q.size + 1) % 2 ^ 32)
        × (q'.flushed ≡ q.flushed)
  unfolding Shows Segment push new_node set_tail linked
  push-Shows x q [] (e, t, u) =
      let new : Option (Node V) = some (record { val = x; next = none }) in
      let q1 : PQueue V = record q { heap = q.heap ++ new ∷ [] } in
      (
        record q1 {
          head_next = some (length q.heap);
          tail = some (length q.heap);
          size = (q.size + 1) % 2 ^ 32;
        },
        rw (link_head (length q.heap) q1 t),
        (length q.heap, none, refl, omega arith, get_elem?-end q.heap new, (refl, refl, tt)),
        refl,
        refl,
      )
  push-Shows x q (v ∷ vs) s =
      let (b, t, l, n, g) = tail_at q.heap 0 q.head_next none q.tail v vs s in
      (
        record q {
          heap = linked q.heap x b n;
          tail = some (length q.heap);
          size = (q.size + 1) % 2 ^ 32;
        },
        rw (
            link_node (length q.heap)
              (record q { heap = q.heap ++ some (record { val = x; next = none }) ∷ [] }) b n t
              (get_elem?-front q.heap _ b (some n) g)),
        Segment-linked q.heap 0 q.head_next none b n x v vs g
            (subst (λ k. Segment q.heap 0 q.head_next none k (v ∷ vs)) t s),
        refl,
        refl,
      )

  -- `front` gives the oldest value where there are two at least, and nothing otherwise.
  pub front-Shows_two :
      (q : PQueue V) (v w : V) (vs : List V)
      → Shows q (v ∷ w ∷ vs)
      → (q' : PQueue V) × (front q ≡ some (some v, q'))
        × Shows q' (w ∷ vs)
        × (q'.size ≡ (q.size + 2 ^ 32 - 1) % 2 ^ 32)
        × (q'.flushed ≡ q.flushed)
  unfolding Shows Segment front
  front-Shows_two q v w vs (a, next, e, l, g, s) =
      let (b, t, lb, n, gb) = tail_at q.heap (suc a) next (some a) q.tail w vs s in
      (
        record q {
          head_next = next;
          heap = set q.heap a none;
          size = (q.size + 2 ^ 32 - 1) % 2 ^ 32;
        },
        ground (
          arith,
          e,
          t,
          is_tail_later a b (omega arith),
          take_first_lem a q (record { val = v; next = next }) g,
        ),
        (let (a2, next2, e2, l2, g2, s2) =
              Segment-set q.heap a (suc a) none next (some a) q.tail (w ∷ vs) (omega arith) s in
            (a2, next2, e2, omega arith, g2, s2)),
        refl,
        refl,
      )

  pub front-Shows_one : (q : PQueue V) (v : V) → Shows q (v ∷ []) → front q ≡ some (none, q)
  unfolding Shows Segment front is_tail
  front-Shows_one q v (a, next, e, l, g, (en, et, u)) = ground (arith, e, et, eq→== a a refl)

  pub front-Shows_empty : (q : PQueue V) → Shows q [] → front q ≡ some (none, q)
  unfolding Shows Segment front is_tail
  front-Shows_empty q (e, t, u) = ground (arith, e, t)

pub create-Shows {ℓ} : (V : Type ℓ) (limit : ℕ) → Shows (create {V = V} limit) []
unfolding Shows Segment create
create-Shows V limit = (refl, refl, tt)
