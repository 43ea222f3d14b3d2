-- ===== src/Container/PQueue.antt =====
-- container/pqueue.h: `PQueue`, at the level of its pointers. The nodes have the positions of their
-- allocation as addresses in `heap`, where a deleted node is `none`; the member `head`, of which only `next`
-- is used, stands apart. A `none` outside is a fault: a deleted node is used. The locks of `push` and `front`
-- are two different ones.
pub mod Segment
pub mod Laws
pub mod Refine
pub mod Race
mod Tests
use selib.Prelude.{
  ℕ, ◌+◌, ◌-◌, ◌%◌, ◌^◌, Bool, true, false, ◌&&◌, Option, none, some, List, [], ◌∷◌, ◌++◌, ◌==◌,
  if◌then◌else◌, ◌>>=◌, get_elem?, set, length, ltb,
}

module _ {ℓ} where
  -- `Node`
  pub record Node (V : Type ℓ) : Type ℓ where
    pub val : V
    pub next : Option ℕ

  -- `PQueue`. A `tail` of `none` is `&(this->head)`.
  pub record PQueue (V : Type ℓ) : Type ℓ where
    pub heap : List (Option (Node V))
    pub head_next : Option ℕ
    pub tail : Option ℕ
    pub size : ℕ
    pub length_limit : ℕ
    pub flushed : Bool

-- `p == this->tail`
pub is_tail : Option ℕ → Option ℕ → Bool
is_tail none none = false
is_tail none (some a) = false
is_tail (some a) none = false
is_tail (some a) (some b) = a == b

module _ {ℓ} {V : Type ℓ} where
  -- The constructor. It does not set `length`, which is an argument here.
  pub create : ℕ → PQueue V
  create limit = record {
    heap = [];
    head_next = none;
    tail = none;
    size = 0;
    length_limit = limit;
    flushed = false;
  }

  -- `reserve`
  pub reserve : ℕ → PQueue V → PQueue V
  reserve len q = record q { length_limit = len }

  -- `new QueueNode()` with its two assignments: the address, and the queue.
  pub new_node : V → PQueue V → ℕ × PQueue V
  new_node x q =
      (length q.heap, record q { heap = q.heap ++ some (record { val = x; next = none }) ∷ [] })

  -- `this->tail->next = qn`
  pub link : ℕ → PQueue V → Option (PQueue V)
  link qn q = elim q.tail [
    | none ↦ some (record q { head_next = some qn })
    | some a ↦ do
      cell ← get_elem? q.heap a
      n ← cell
      some (record q { heap = set q.heap a (some (record n { next = some qn })) })
  ]

  -- `this->tail = qn` and `AtomicAdd(&(this->size), 1)`
  pub set_tail : ℕ → PQueue V → PQueue V
  set_tail qn q = record q { tail = some qn; size = (q.size + 1) % 2 ^ 32 }

  -- `push`, with `-1` as `false`; `alloc` says whether `new` succeeds.
  pub push : Bool → V → PQueue V → Option (Bool × PQueue V)
  unfolding new_node set_tail
  push alloc x q =
      let (qn, q1) = new_node x q in
      let linked = link qn q1 in
      if alloc then linked >>= (λ q2. some (true, set_tail qn q2)) else some (false, q)

  -- `flush`: the dummy value is what `Type t;` holds. The result of `push` is dropped.
  pub flush : Bool → V → PQueue V → Option (PQueue V)
  unfolding push
  flush alloc t q = push alloc t q >>= λ r. some (record r.1 { flushed = true })

  -- `all_poped`
  pub all_poped : PQueue V → Bool
  all_poped q = q.flushed && (q.size == 1)

  -- The test of the loop of `try_push`.
  pub is_full : PQueue V → Bool
  is_full q = ltb q.length_limit q.size

  -- A round of `try_push`: `some none` where it yields to test again.
  pub try_push : Bool → V → PQueue V → Option (Option (Bool × PQueue V))
  unfolding is_full push
  try_push alloc x q = if is_full q then some none else push alloc x q >>= λ r. some (some r)

  -- What `front` does to the first node: it is taken out and deleted. `AtomicSub` wraps around.
  pub take_first : ℕ → PQueue V → Option (Option V × PQueue V)
  take_first a q = do
    cell ← get_elem? q.heap a
    n ← cell
    some (
      some n.val,
      record q {
        head_next = n.next;
        heap = set q.heap a none;
        size = (q.size + 2 ^ 32 - 1) % 2 ^ 32;
      },
    )

  -- `front`: the value, or `none` for `-1`.
  pub front : PQueue V → Option (Option V × PQueue V)
  unfolding is_tail take_first
  front q =
      if is_tail q.tail q.head_next
      then some (none, q)
      else elim q.head_next [ none ↦ some (none, q) | some a ↦ take_first a q ]
