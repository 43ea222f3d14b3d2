-- ===== src/Container/PQueue/Race.antt =====
-- container/pqueue.h: `front` of one thread within the critical section of `push` of another, which the two
-- locks do not keep out.
use selib.Prelude.{
  ℕ, ◌+◌, ◌-◌, ◌%◌, ◌^◌, ◌≡◌, refl, true, Option, none, some, [], ◌∷◌, ◌++◌, ◌>>=◌, get_elem?, set,
  length, arith, get_elem?-set_self, length-append,
}
use selib.Container.PQueue.{Node, PQueue, new_node, link, set_tail, push, front, is_tail}
use selib.Container.PQueue.Segment.{Segment, get_elem?-end, get_elem?-front}
use selib.Container.PQueue.Laws.{Shows, link_head, take_first_lem}

module _ {ℓ} {V : Type ℓ} where
  -- `push` of a value, with a whole `front` between its two assignments: what `front` gives, and the queue.
  pub push_around_front : V → PQueue V → Option (Option V × PQueue V)
  push_around_front x q = do
    q1 ← link (new_node x q).0 (new_node x q).1
    r ← front q1
    some (r.0, set_tail (new_node x q).0 r.1)

  -- A `link` to a deleted node.
  link_deleted :
      (qn : ℕ) (q : PQueue V) (b : ℕ)
      → q.tail ≡ some b
      → get_elem? q.heap b ≡ some none
      → link qn q ≡ none
  unfolding link
  link_deleted qn q b t g = ground (arith, t, g)

  push_deleted :
      (y : V) (q : PQueue V) (b : ℕ)
      → q.tail ≡ some b
      → get_elem? q.heap b ≡ some none
      → push true y q ≡ none
  unfolding push new_node
  push_deleted y q b t g =
      let new : Option (Node V) = some (record { val = y; next = none }) in
      rw (
        link_deleted (length q.heap) (record q { heap = q.heap ++ new ∷ [] }) b t
          (get_elem?-front q.heap new b none g))

  front_first :
      (q : PQueue V) (a : ℕ) (n : Node V)
      → q.tail ≡ none
      → q.head_next ≡ some a
      → get_elem? q.heap a ≡ some (some n)
      → front q
        ≡ some (
          some n.val,
          record q {
            head_next = n.next;
            heap = set q.heap a none;
            size = (q.size + 2 ^ 32 - 1) % 2 ^ 32;
          },
        )
  unfolding front is_tail
  front_first q a n t e g = ground (arith, t, e, take_first_lem a q n g)

  -- On an empty queue a `front` between the two assignments of `push` gives the value and deletes its node,
  -- which is then the tail: every later `push` writes to the deleted node.
  pub front_between :
      (q : PQueue V) (x y : V)
      → Shows q []
      → (q' : PQueue V) × (push_around_front x q ≡ some (some x, q')) × (push true y q' ≡ none)
  unfolding push_around_front Shows Segment
  front_between q x y (e, t, u) =
      let qn : ℕ = length q.heap in
      let n : Node V = record { val = x; next = none } in
      let q1 : PQueue V = (new_node x q).1 in
      let q2 : PQueue V = record q1 { head_next = some qn } in
      let q3 : PQueue V = record q2 {
        head_next = none;
        heap = set q1.heap qn none;
        size = (q.size + 2 ^ 32 - 1) % 2 ^ 32;
      } in
      let found : get_elem? q1.heap qn ≡ some (some n) =
        unfold new_node in get_elem?-end q.heap (some n) in
      let linked : link (new_node x q).0 q1 ≡ some q2 = unfold new_node in link_head qn q1 t in
      let taken : front q2 ≡ some (some x, q3) =
        unfold new_node in front_first q2 qn n t refl found in
      let gone : get_elem? q3.heap qn ≡ some none =
        unfold new_node in
        get_elem?-set_self q1.heap qn none (omega (arith, length-append q.heap (some n ∷ []))) in
      (
        set_tail qn q3,
        rw (linked, taken) (unfold new_node in refl),
        push_deleted y (set_tail qn q3) qn (unfold set_tail in refl) (unfold set_tail in gone),
      )
