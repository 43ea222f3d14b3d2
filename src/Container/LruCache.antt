-- ===== src/Container/LruCache.antt =====
-- container/circle_cache.h: `LruCache`, on its two arrays. Keys and pointers to values are numbers and
-- Options, a `none` outside is a fault: an access out of an array. `-1` is `false`.
pub mod Circle
pub mod Index
pub mod Writes
pub mod Valid
pub mod Store
pub mod Shapes
pub mod Entries
pub mod Outcome
pub mod Touch
pub mod Renew
pub mod Fresh
pub mod Probe
pub mod Refines
pub mod RoundTrip
pub mod Answers
pub mod Runs
mod Tests
pub mod Sizes
pub mod Init
use selib.Prelude.{
  ℕ, zero, suc, ◌+◌, ◌-◌, ◌*◌, ◌/◌, ◌%◌, ◌^◌, Bool, true, false, ◌&&◌, ◌||◌, not, Option, none,
  some, List, [], ◌∷◌, ◌==◌, if◌then◌else◌, ◌>>=◌, get_elem?, set, length, replicate, ltb, leb, Str,
  eq_str,
}
use Prim.Native.Nat.{bit_and}

-- `INVALID_INDEX`
abbrev pub invalid_index : ℕ
invalid_index = 2 ^ 32 - 1

-- `hash_node_t`
pub record HashNode : Type 0 where
  pub key : ℕ
  pub index : ℕ
  pub raw_key : Str

-- The constructor of `hash_node_t`, which is also what eviction writes.
abbrev pub no_hash_node : HashNode
no_hash_node = record { key = 0; index = invalid_index; raw_key = [] }

module _ {ℓ} where
  -- `list_node_t`
  pub record ListNode (V : Type ℓ) : Type ℓ where
    pub key : ℕ
    pub next : ℕ
    pub last : ℕ
    pub bucket : ℕ
    pub v : Option V

  -- `LruCache`
  pub record LruCache (V : Type ℓ) : Type ℓ where
    pub hash : List HashNode
    pub list : List (ListNode V)
    pub head : ℕ
    pub tail : ℕ
    pub hash_size : ℕ
    pub capacity : ℕ
    pub max_probing : ℕ

-- `get_bit_pos`: the loop halves `v` until it is zero, so its value is enough fuel.
pub bit_pos_loop : ℕ → ℕ → ℕ → ℕ
bit_pos_loop zero v r = r
bit_pos_loop (suc fuel) v r =
    let rest = bit_pos_loop fuel (v / 2) (r + 1) in if v / 2 == 0 then r else rest

pub get_bit_pos : ℕ → ℕ
unfolding bit_pos_loop
get_bit_pos v = bit_pos_loop v v 0

-- `quadratic_probing`, in which `0.5 * i + 0.5 * i * i` is a double that becomes a `uint32_t`. The model takes it
-- exact and modulo 2 ^ 32, which is what the code computes as long as it is below 2 ^ 32, up to `i` = 92681; above,
-- the language does not define the conversion.
pub quadratic_probing : ℕ → ℕ → ℕ → ℕ
quadratic_probing hash_size key i =
    let probing_offset : ℕ = (i + i * i) / 2 % 2 ^ 32 in
    bit_and (bit_and key (hash_size - 1) + probing_offset) (hash_size - 1)

module _ {ℓ} {V : Type ℓ} where
  -- The constructor of `list_node_t`.
  abbrev pub no_list_node : ListNode V
  no_list_node = record {
    key = 0;
    next = invalid_index;
    last = invalid_index;
    bucket = invalid_index;
    v = none;
  }

  -- `_list[i] = f(_list[i])`, for an assignment to members.
  pub write_list : List (ListNode V) → ℕ → (ListNode V → ListNode V) → Option (List (ListNode V))
  write_list l i f = do n ← get_elem? l i; some (set l i (f n))

  pub set_next : List (ListNode V) → ℕ → ℕ → Option (List (ListNode V))
  unfolding write_list
  set_next l i n = write_list l i λ x. record x { next = n }

  pub set_last : List (ListNode V) → ℕ → ℕ → Option (List (ListNode V))
  unfolding write_list
  set_last l i n = write_list l i λ x. record x { last = n }

  -- The loop of `init` over `i`, for the rounds left.
  pub link_loop : ℕ → ℕ → List (ListNode V) → Option (List (ListNode V))
  unfolding set_next set_last
  link_loop zero i l = some l
  link_loop (suc n) i l = do
    l1 ← set_next l i (i + 1)
    l2 ← set_last l1 i (i - 1)
    link_loop n (i + 1) l2

  -- The circle that `init` makes of the list.
  pub make_circle : ℕ → List (ListNode V) → Option (List (ListNode V))
  unfolding set_next set_last link_loop
  make_circle capacity l = do
    l1 ← set_next l 0 1
    l2 ← set_last l1 0 ((capacity + 2 ^ 32 - 1) % 2 ^ 32)
    l3 ← link_loop (capacity - 2) 1 l2
    l4 ← set_next l3 (capacity - 1) 0
    set_last l4 (capacity - 1) ((capacity + 2 ^ 32 - 2) % 2 ^ 32)

  -- `init`, where both allocations succeed; inside, `-1` is `none`.
  pub init : Bool → Bool → ℕ → ℕ → Option (Option (LruCache V))
  unfolding get_bit_pos make_circle
  init alloc_hash alloc_list capacity max_probing =
      let hash_size : ℕ = 2 ^ (get_bit_pos (capacity * 2 % 2 ^ 32) + 1) % 2 ^ 32 in
      let made = make_circle capacity (replicate capacity no_list_node) >>= λ list. some (
        some (record {
          hash = replicate hash_size no_hash_node;
          list = list;
          head = 0;
          tail = 0;
          hash_size = hash_size;
          capacity = capacity;
          max_probing = max_probing;
        })) in
      if alloc_hash && alloc_list then made else some none

  -- `get_probing_bucket`: the rounds left, and `i`.
  pub get_probe : ℕ → ℕ → LruCache V → ℕ → Str → Option ℕ
  unfolding quadratic_probing
  get_probe zero i c key raw_key = some invalid_index
  get_probe (suc n) i c key raw_key =
      let p : ℕ = quadratic_probing c.hash_size key i in
      let rest = get_probe n (i + 1) c key raw_key in
      get_elem? c.hash p >>= λ h.
      if (h.key == key) && eq_str h.raw_key raw_key then some p else rest

  -- `put_probing_bucket`
  pub put_probe : ℕ → ℕ → LruCache V → ℕ → Str → Bool → Option ℕ
  unfolding quadratic_probing
  put_probe zero i c key raw_key overwrite = some invalid_index
  put_probe (suc n) i c key raw_key overwrite =
      let p : ℕ = quadratic_probing c.hash_size key i in
      let rest = put_probe n (i + 1) c key raw_key overwrite in
      get_elem? c.hash p >>= λ h.
      if h.key == 0
      then some p
      else if (h.key == key) && eq_str h.raw_key raw_key && overwrite
      then some p
      else rest

  -- The bound of both loops.
  pub rounds : LruCache V → ℕ
  rounds c = if ltb c.hash_size c.max_probing then c.hash_size else c.max_probing

  -- `write_adjust`
  pub write_adjust : LruCache V → Option (LruCache V)
  unfolding write_list
  write_adjust c = do
    hd ← get_elem? c.list c.head
    tl ← get_elem? c.list c.tail
    if c.tail == hd.next
        then (do
          list ← write_list c.list c.tail (λ x. record x { key = 0; v = none })
          b ← get_elem? c.hash tl.bucket
          some (record c {
            list = list;
            hash = set c.hash tl.bucket no_hash_node;
            head = c.tail;
            tail = tl.next;
          }))
        else some (record c { head = hd.next })

  -- `read_adjust`
  pub read_adjust : LruCache V → ℕ → Option (LruCache V)
  unfolding set_next set_last
  read_adjust c index = do
    n ← get_elem? c.list index
    l1 ← set_next c.list n.last n.next
    n1 ← get_elem? l1 index
    l2 ← set_last l1 n1.next n1.last
    hd ← get_elem? l2 c.head
    l3 ← set_next l2 hd.last index
    hd3 ← get_elem? l3 c.head
    l4 ← set_last l3 index hd3.last
    n4 ← get_elem? l4 index
    l5 ← set_next l4 index c.head
    l6 ← set_last l5 c.head index
    some (record c {
      list = l6;
      tail = if (c.tail == index) && not (c.head == n4.next) then n4.next else c.tail;
    })

  -- Whether the bucket of `put` already has the slot of the key.
  pub has_slot : LruCache V → HashNode → ℕ → Option Bool
  has_slot c h k =
      if h.index == invalid_index
      then some false
      else get_elem? c.list h.index >>= λ n. some (n.key == k)

  -- The end of `put`: a new slot, or one that was in use.
  pub adjust : LruCache V → ℕ → Option (LruCache V)
  unfolding write_adjust read_adjust
  adjust c index = if index == c.head then write_adjust c else read_adjust c index

  -- `put` into a bucket and a slot.
  pub store : LruCache V → ℕ → ℕ → ℕ → Option V → Str → Option (LruCache V)
  unfolding write_list adjust
  store c bucket index k v raw_key = do
    list ← write_list c.list index (λ x. record x { key = k; v = v; bucket = bucket })
    adjust
        (record c {
          hash = set c.hash bucket (record { key = k; index = index; raw_key = raw_key });
          list = list;
        })
        index

  -- `put` into the bucket that was found.
  pub put_at : LruCache V → ℕ → ℕ → Option V → Str → Option (LruCache V)
  unfolding has_slot store
  put_at c bucket k v raw_key = do
    h ← get_elem? c.hash bucket
    same ← has_slot c h k
    store c bucket (if same then h.index else c.head) k v raw_key

  -- `bucket == INVALID_INDEX || bucket >= _hash_size`
  pub is_missing : LruCache V → ℕ → Bool
  is_missing c bucket = (bucket == invalid_index) || leb c.hash_size bucket

  pub put : LruCache V → ℕ → Option V → Str → Bool → Option (Bool × LruCache V)
  unfolding put_probe rounds put_at is_missing
  put c k v raw_key overwrite = do
    bucket ← put_probe (rounds c) 0 c k raw_key overwrite
    if is_missing c bucket
        then some (false, c)
        else put_at c bucket k v raw_key >>= λ c'. some (true, c')

  -- `get` from the bucket that was found.
  pub get_at : LruCache V → ℕ → Option (Option V × LruCache V)
  unfolding read_adjust
  get_at c bucket = do
    h ← get_elem? c.hash bucket
    n ← get_elem? c.list h.index
    c' ← read_adjust c h.index
    some (n.v, c')

  -- `get`; a null pointer is `none` inside.
  pub get : LruCache V → ℕ → Str → Option (Option V × LruCache V)
  unfolding get_probe rounds is_missing get_at
  get c k raw_key = do
    bucket ← get_probe (rounds c) 0 c k raw_key
    if is_missing c bucket then some (none, c) else get_at c bucket
