-- ===== src/Container/LruCache/Valid.antt =====
-- container/circle_cache.h: well-formed caches. The circle of the slots has the free ones first, from the
-- head on, and then those in use, the least recently used first.
use selib.Prelude.{
  count, count-append, ℕ, ◌^◌, ◌<◌, ◌≤◌, ◌≡◌, ◌≢◌, refl, sym, ap, ◌∙◌, ◌&&◌, not, Option, some,
  List, [], ◌∷◌, ◌++◌, ◌==◌, if◌then◌else◌, arith, eq→==, get_or, length, length-append, Str,
}
use mathlib.Core.Path.{subst}
use mathlib.Core.List.{append_assoc}
use selib.Container.LruCache.{
  HashNode, ListNode, LruCache, invalid_index, no_hash_node, read_adjust,
}
use selib.Container.LruCache.Circle.{
  IsDistinct, upd, upd_other, Chain, end, end_counted, first, Chain-end, Chain-split, Chain-first,
  Chain-frame, first_counted, unlink, link_last,
}
use selib.Container.LruCache.Index.{Indexed, Indexed-same}
use selib.Container.LruCache.Writes.{
  at, next_of, last_of, data_of, Relinked, read_adjust_lem, next_out, last_out,
}

-- The test that `read_adjust` makes for the tail.
tail_at :
    (a b : List ℕ) (x h tail y : ℕ)
    → tail ≡ first h (a ++ x ∷ b)
    → y ≡ first h b
    → count x a ≡ 0
    → count h b ≡ 0
    → (if (tail == x) && not (h == y) then y else tail) ≡ first h (a ++ b ++ x ∷ [])
tail_at [] [] x h tail y e f n m = ground (arith, e, f)
tail_at [] (z ∷ b) x h tail y e f n m = ground (arith, e, f, m)
tail_at (z ∷ a) b x h tail y e f n m = ground (arith, e, f, n)

module _ {ℓ} {V : Type ℓ} where
  abbrev pub node : LruCache V → ℕ → HashNode
  node c p = get_or c.hash p no_hash_node

  abbrev pub hash_key : LruCache V → ℕ → ℕ
  hash_key c p = (node c p).key

  abbrev pub hash_index : LruCache V → ℕ → ℕ
  hash_index c p = (node c p).index

  abbrev pub list_key : LruCache V → ℕ → ℕ
  list_key c s = (at c.list s).key

  abbrev pub list_bucket : LruCache V → ℕ → ℕ
  list_bucket c s = (at c.list s).bucket

  -- The circle from the head on.
  abbrev pub circle_of : LruCache V → List ℕ → List ℕ → List ℕ
  circle_of c frees used = c.head ∷ frees ++ used

  -- The sizes and the circle.
  pub record Shape (c : LruCache V) (frees used : List ℕ) : Type 0 where
    pub list_size : length c.list ≡ c.capacity
    pub hash_length : length c.hash ≡ c.hash_size
    pub power : (k : ℕ) × (c.hash_size ≡ 2 ^ k)
    pub small : c.hash_size ≤ invalid_index
    pub few : c.capacity ≤ invalid_index
    pub many : 2 ≤ c.capacity
    pub linked : Chain (next_of c.list) (last_of c.list) c.head (frees ++ used) c.head
    pub distinct : IsDistinct (circle_of c frees used)
    pub inside : (i : ℕ) → 1 ≤ count i (circle_of c frees used) → i < c.capacity
    pub whole : length (circle_of c frees used) ≡ c.capacity
    pub oldest : c.tail ≡ first c.head used

  -- With some free slots after the head, and some in use.
  pub record IsCache (c : LruCache V) (frees used : List ℕ) : Type 0 where
    pub shape : Shape c frees used
    pub indexed : Indexed c.hash_size (hash_key c) (hash_index c) (list_key c) (list_bucket c) used

  -- What a slot in use stands for: its key, the raw key of its bucket, and its value.
  unfoldable pub entry : LruCache V → ℕ → ℕ × Str × Option V
  entry c s = (list_key c s, (node c (list_bucket c s)).raw_key, (at c.list s).v)

  module _ (c : LruCache V) (frees a : List ℕ) (x : ℕ) (b : List ℕ)
      (ok : IsCache c frees (a ++ x ∷ b)) where
    -- The slots are in one list, in front of the slot and behind it.
    regroup : frees ++ (a ++ x ∷ b) ≡ (frees ++ a) ++ x ∷ b
    regroup = sym (append_assoc frees a (x ∷ b))

    abbrev rest : List ℕ
    rest = (frees ++ a) ++ b

    linked_at : Chain (next_of c.list) (last_of c.list) c.head ((frees ++ a) ++ x ∷ b) c.head
    linked_at = rw regroup at ok.shape.linked

    IsDistinct-at : IsDistinct (c.head ∷ (frees ++ a) ++ x ∷ b)
    IsDistinct-at = λ i. omega (arith, ok.shape.distinct i, ap (count i) regroup)

    counts : (i : ℕ) → count i ((frees ++ a) ++ x ∷ b) ≡ count i (x ∷ rest)
    counts i = omega (arith, count-append i (frees ++ a) (x ∷ b), count-append i (frees ++ a) b)

    outside : count x (c.head ∷ rest) ≡ 0
    outside = ground (arith, IsDistinct-at x, counts x, eq→== x x refl)

    IsDistinct-rest : IsDistinct (c.head ∷ rest)
    IsDistinct-rest = λ i. omega (arith, IsDistinct-at i, counts i)

    in_list : (i : ℕ) → 1 ≤ count i (c.head ∷ (frees ++ a) ++ x ∷ b) → i < length c.list
    in_list i h =
        omega
          (arith, ok.shape.inside i (omega (arith, h, ap (count i) regroup)), ok.shape.list_size)

    next_first : next_of c.list x ≡ first c.head b
    next_first =
        let (c1, c2) =
          Chain-split (next_of c.list) (last_of c.list) c.head (frees ++ a) x b c.head linked_at in
        Chain-first (next_of c.list) (last_of c.list) x b c.head c2

    last_end : last_of c.list x ≡ end c.head (frees ++ a)
    last_end =
        let (c1, c2) =
          Chain-split (next_of c.list) (last_of c.list) c.head (frees ++ a) x b c.head linked_at in
        Chain-end (next_of c.list) (last_of c.list) c.head (frees ++ a) x c1

    abbrev nx1 : ℕ → ℕ
    nx1 = next_out (next_of c.list) (last_of c.list) x

    abbrev ls1 : ℕ → ℕ
    ls1 = last_out (next_of c.list) (last_of c.list) x

    linked_rest : Chain nx1 ls1 c.head rest c.head
    linked_rest =
        unlink (next_of c.list) (last_of c.list) c.head (frees ++ a) x b IsDistinct-at linked_at

    head_last : ls1 c.head ≡ end c.head rest
    head_last = Chain-end nx1 ls1 c.head rest c.head linked_rest

    -- A slot among the others is not the one that is taken out.
    differs : (i : ℕ) → 1 ≤ count i (c.head ∷ rest) → i ≢ x
    differs i h e =
        let k : 1 ≤ count x (c.head ∷ rest) = subst (λ z. 1 ≤ count z (c.head ∷ rest)) e h in
        omega (arith, outside)

    last_differs : last_of c.list x ≢ x
    last_differs e =
        differs (end c.head (frees ++ a))
          (omega (
            arith,
            end_counted c.head (frees ++ a),
            count-append (end c.head (frees ++ a)) (frees ++ a) b,
          ))
          (sym last_end ∙ e)

    end_differs : ls1 c.head ≢ x
    end_differs e = differs (end c.head rest) (end_counted c.head rest) (sym head_last ∙ e)

    in_rest : (i : ℕ) → 1 ≤ count i (c.head ∷ rest) → i < length c.list
    in_rest i h = in_list i (omega (arith, counts i))

    next_in : next_of c.list x < length c.list
    next_in = rw next_first (
        in_list (first c.head b) (
          omega
            (arith, first_counted c.head b, count-append (first c.head b) (frees ++ a) (x ∷ b))))

    last_in : last_of c.list x < length c.list
    last_in = rw last_end (
        in_list (end c.head (frees ++ a)) (
          omega (
            arith,
            end_counted c.head (frees ++ a),
            count-append (end c.head (frees ++ a)) (frees ++ a) (x ∷ b),
          )))

    abbrev moved : List ℕ
    moved = a ++ b ++ x ∷ []

    regroup_moved : frees ++ moved ≡ rest ++ x ∷ []
    regroup_moved =
        sym (append_assoc frees (a ++ b) (x ∷ []))
        ∙ ap (λ l. l ++ x ∷ []) (sym (append_assoc frees a b))

    count-moved : (i : ℕ) → count i moved ≡ count i (a ++ x ∷ b)
    count-moved i =
        omega
          (arith, count-append i (a ++ b) (x ∷ []), count-append i a b, count-append i a (x ∷ b))

    next_again : upd nx1 (ls1 c.head) x x ≡ first c.head b
    next_again =
        upd_other nx1 (ls1 c.head) x x end_differs
        ∙ upd_other (next_of c.list) (last_of c.list x) (next_of c.list x) x last_differs
        ∙ next_first

    -- The cache with the slot at the end.
    moved-IsCache :
        (l : List (ListNode V))
        → Relinked c.list l
            (upd (upd nx1 (ls1 c.head) x) x c.head)
            (upd (upd ls1 x (ls1 c.head)) c.head x)
        → IsCache (record c { list = l; tail = first c.head moved }) frees moved
    unfolding Relinked
    moved-IsCache l (k, n, p, d) =
        let same : (i : ℕ)
            → count i (circle_of c frees moved) ≡ count i (circle_of c frees (a ++ x ∷ b)) =
          λ i.
            omega (
              arith,
              count-append i frees moved,
              count-append i frees (a ++ x ∷ b),
              count-moved i,
            ) in
        let shape : Shape (record c { list = l; tail = first c.head moved }) frees moved = record {
          list_size = k ∙ ok.shape.list_size;
          hash_length = ok.shape.hash_length;
          power = ok.shape.power;
          small = ok.shape.small;
          few = ok.shape.few;
          many = ok.shape.many;
          linked = rw regroup_moved (
              Chain-frame (upd (upd nx1 (ls1 c.head) x) x c.head)
                (upd (upd ls1 x (ls1 c.head)) c.head x) (next_of l) (last_of l) c.head
                (rest ++ x ∷ []) c.head (λ i h. n i) (λ i h. p i) (p c.head)
                (link_last nx1 ls1 c.head rest x IsDistinct-rest outside linked_rest));
          distinct = λ i. omega (arith, same i, ok.shape.distinct i);
          inside = λ i h. ok.shape.inside i (omega (arith, same i));
          whole = omega (
            arith,
            ok.shape.whole,
            length-append frees moved,
            length-append frees (a ++ x ∷ b),
            length-append (a ++ b) (x ∷ []),
            length-append a b,
            length-append a (x ∷ b),
          );
          oldest = refl;
        } in
        record {
          shape = shape;
          indexed =
              Indexed-same (λ q. refl) (λ q. refl) (λ s. ap ListNode.key (d s))
                (λ s. ap ListNode.bucket (d s)) count-moved ok.indexed;
        }

    -- `read_adjust` of a slot in use makes it the most recently used one.
    pub read_adjust_at :
        (l : List (ListNode V)) × (read_adjust c x
          ≡ some (record c { list = l; tail = first c.head moved }))
        × IsCache (record c { list = l; tail = first c.head moved }) frees moved
        × ((j : ℕ) → data_of l j ≡ data_of c.list j)
    unfolding Relinked
    read_adjust_at =
        let (l, e, r) =
          read_adjust_lem c x (in_list x (ground (arith, counts x, eq→== x x refl)))
            (in_list c.head (ground (arith, eq→== c.head c.head refl))) next_in last_in
            (rw head_last (in_rest (end c.head rest) (end_counted c.head rest)))
            (upd_other (next_of c.list) (last_of c.list x) (next_of c.list x) x last_differs) in
        let t : (if (c.tail == x) && not (c.head == upd nx1 (ls1 c.head) x x)
              then upd nx1 (ls1 c.head) x x
              else c.tail)
            ≡ first c.head moved =
          tail_at a b x c.head c.tail _ ok.shape.oldest next_again
            (omega (arith, outside, count-append x (frees ++ a) b, count-append x frees a))
            (ground (
              arith,
              IsDistinct-rest c.head,
              count-append c.head (frees ++ a) b,
              eq→== c.head c.head refl,
            )) in
        (l, e ∙ ap (λ (k : ℕ). some (record c { list = l; tail = k })) t, moved-IsCache l r, r.3)
