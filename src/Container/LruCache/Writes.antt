-- ===== src/Container/LruCache/Writes.antt =====
-- container/circle_cache.h: the list array as functions from a slot to its members, and what the writes of
-- `read_adjust` do to them.
use selib.Prelude.{
  ℕ, ◌<◌, ◌≡◌, refl, ap, ◌∙◌, Bool, true, false, ◌&&◌, not, some, List, ◌==◌, if◌then◌else◌, arith,
  get_elem?, get_or, set, length, length-set, get_or-set, get_elem?-eq-get_or, if-==, if_same,
}
use selib.Container.LruCache.{
  ListNode, LruCache, no_list_node, write_list, set_next, set_last, read_adjust,
}
use selib.Container.LruCache.Circle.{upd}

pub ap-if {ℓ κ} :
    {A : Type ℓ} {B : Type κ} (g : A → B) (b : Bool) (x y : A)
    → g (if b then x else y) ≡ (if b then g x else g y)
ap-if g true x y = refl
ap-if g false x y = refl

-- A member that a write to one element leaves.
pub kept {ℓ κ} :
    {A : Type ℓ} {B : Type κ} (g : A → B) (f : ℕ → A) (i j : ℕ) (x a : A)
    → a ≡ (if i == j then x else f j)
    → g x ≡ g (f i)
    → g a ≡ g (f j)
kept g f i j x a e same =
    ap g e
    ∙ ap-if g (i == j) x (f j)
    ∙ ap (λ y. if i == j then y else g (f j)) same
    ∙ if-== i j (λ k. g (f k)) (g (f j))
    ∙ if_same (i == j) (g (f j))

-- The links after the two halves of `read_adjust`.
abbrev pub next_out : (ℕ → ℕ) → (ℕ → ℕ) → ℕ → ℕ → ℕ
next_out nx ls x = upd nx (ls x) (nx x)

abbrev pub last_out : (ℕ → ℕ) → (ℕ → ℕ) → ℕ → ℕ → ℕ
last_out nx ls x = upd ls (nx x) (ls x)

module _ {ℓ} {V : Type ℓ} where
  abbrev pub at : List (ListNode V) → ℕ → ListNode V
  at l i = get_or l i no_list_node

  abbrev pub next_of : List (ListNode V) → ℕ → ℕ
  next_of l i = (at l i).next

  abbrev pub last_of : List (ListNode V) → ℕ → ℕ
  last_of l i = (at l i).last

  -- The other members.
  abbrev pub data_of : List (ListNode V) → ℕ → ListNode V
  data_of l i = record (at l i) { next = 0; last = 0 }

  pub read : (l : List (ListNode V)) (i : ℕ) → i < length l → get_elem? l i ≡ some (at l i)
  read l i h = get_elem?-eq-get_or l i no_list_node h

  pub write_lem :
      (l : List (ListNode V)) (i : ℕ) (f : ListNode V → ListNode V)
      → i < length l
      → (l' : List (ListNode V)) × (write_list l i f ≡ some l')
        × (length l' ≡ length l)
        × ((j : ℕ) → at l' j ≡ (if i == j then f (at l i) else at l j))
  unfolding write_list
  write_lem l i f h = (
    set l i (f (at l i)),
    rw (read l i h),
    length-set l i (f (at l i)),
    λ j. get_or-set l i j (f (at l i)) no_list_node h,
  )

  -- A list that differs by its links only, which are those of two functions.
  unfoldable pub Relinked : List (ListNode V) → List (ListNode V) → (ℕ → ℕ) → (ℕ → ℕ) → Type ℓ
  Relinked l l' nx ls =
      (length l' ≡ length l)
      × ((j : ℕ) → next_of l' j ≡ nx j)
      × ((j : ℕ) → last_of l' j ≡ ls j)
      × ((j : ℕ) → data_of l' j ≡ data_of l j)

  set_next_lem :
      (l : List (ListNode V)) (i n : ℕ)
      → i < length l
      → (l' : List (ListNode V)) × (set_next l i n ≡ some l')
        × Relinked l l' (upd (next_of l) i n) (last_of l)
  unfolding set_next Relinked
  set_next_lem l i n h =
      let (l', e, k, a) = write_lem l i (λ x. record x { next = n }) h in
      (
        l',
        e,
        (
          k,
          λ j. ap ListNode.next (a j) ∙ ap-if ListNode.next (i == j) _ _,
          λ j. kept ListNode.last (at l) i j _ _ (a j) refl,
          λ j. kept (λ (x : ListNode V). record x { next = 0; last = 0 }) (at l) i j _ _ (a j) refl,
        ),
      )

  set_last_lem :
      (l : List (ListNode V)) (i n : ℕ)
      → i < length l
      → (l' : List (ListNode V)) × (set_last l i n ≡ some l')
        × Relinked l l' (next_of l) (upd (last_of l) i n)
  unfolding set_last Relinked
  set_last_lem l i n h =
      let (l', e, k, a) = write_lem l i (λ x. record x { last = n }) h in
      (
        l',
        e,
        (
          k,
          λ j. kept ListNode.next (at l) i j _ _ (a j) refl,
          λ j. ap ListNode.last (a j) ∙ ap-if ListNode.last (i == j) _ _,
          λ j. kept (λ (x : ListNode V). record x { next = 0; last = 0 }) (at l) i j _ _ (a j) refl,
        ),
      )

  -- The same with the links known as functions.
  pub then_next :
      (l0 l : List (ListNode V)) (nx ls : ℕ → ℕ) (i n : ℕ)
      → Relinked l0 l nx ls
      → i < length l0
      → (l' : List (ListNode V)) × (set_next l i n ≡ some l') × Relinked l0 l' (upd nx i n) ls
  unfolding Relinked
  then_next l0 l nx ls i n (k, a, b, d) h =
      let (l', e, (k', a', b', d')) = set_next_lem l i n (omega (arith, k)) in
      (
        l',
        e,
        (
          k' ∙ k,
          λ j. a' j ∙ ap (λ y. if i == j then n else y) (a j),
          λ j. b' j ∙ b j,
          λ j. d' j ∙ d j,
        ),
      )

  pub then_last :
      (l0 l : List (ListNode V)) (nx ls : ℕ → ℕ) (i n : ℕ)
      → Relinked l0 l nx ls
      → i < length l0
      → (l' : List (ListNode V)) × (set_last l i n ≡ some l') × Relinked l0 l' nx (upd ls i n)
  unfolding Relinked
  then_last l0 l nx ls i n (k, a, b, d) h =
      let (l', e, (k', a', b', d')) = set_last_lem l i n (omega (arith, k)) in
      (
        l',
        e,
        (
          k' ∙ k,
          λ j. a' j ∙ a j,
          λ j. b' j ∙ ap (λ y. if i == j then n else y) (b j),
          λ j. d' j ∙ d j,
        ),
      )

  pub unchanged : (l : List (ListNode V)) → Relinked l l (next_of l) (last_of l)
  unfolding Relinked
  unchanged l = (refl, λ j. refl, λ j. refl, λ j. refl)

  -- A read of an element of a list whose links are known.
  read_next :
      (l0 l : List (ListNode V)) (nx ls : ℕ → ℕ) (i : ℕ)
      → Relinked l0 l nx ls
      → i < length l0
      → (n : ListNode V) × (get_elem? l i ≡ some n) × (n.next ≡ nx i) × (n.last ≡ ls i)
  unfolding Relinked
  read_next l0 l nx ls i (k, a, b, d) h = (at l i, read l i (omega (arith, k)), a i, b i)

  -- What `read_adjust` makes of the links, for functions that take the slot out and put it in before the
  -- head; all slots that it writes to are in the array.
  pub read_adjust_lem :
      (c : LruCache V) (x : ℕ)
      → let nx = next_of c.list in
        let ls = last_of c.list in
        let nx1 = next_out nx ls x in
        let ls1 = last_out nx ls x in
        let nx2 = upd nx1 (ls1 c.head) x in
        let ls2 = upd ls1 x (ls1 c.head) in
        x < length c.list
        → c.head < length c.list
        → nx x < length c.list
        → ls x < length c.list
        → ls1 c.head < length c.list
        → nx1 x ≡ nx x
        → (l : List (ListNode V)) × (read_adjust c x
            ≡ some (record c {
              list = l;
              tail = if (c.tail == x) && not (c.head == nx2 x) then nx2 x else c.tail;
            }))
          × Relinked c.list l (upd nx2 x c.head) (upd ls2 c.head x)
  unfolding read_adjust
  read_adjust_lem c x hx hh hn hl ht en =
      let l0 = c.list in
      let nx = next_of l0 in
      let ls = last_of l0 in
      let nx1 = next_out nx ls x in
      let ls1 = last_out nx ls x in
      let t : ℕ = ls1 c.head in
      let nx2 = upd nx1 t x in
      let ls2 = upd ls1 x t in
      let (l1, e1, r1) = then_next l0 l0 nx ls (ls x) (nx x) (unchanged l0) hl in
      let (n1, g1, a1, b1) = read_next l0 l1 nx1 ls x r1 hx in
      let (l2, e2, r2) = then_last l0 l1 nx1 ls (nx x) (ls x) r1 hn in
      let (n2, g2, a2, b2) = read_next l0 l2 nx1 ls1 c.head r2 hh in
      let (l3, e3, r3) = then_next l0 l2 nx1 ls1 t x r2 ht in
      let (n3, g3, a3, b3) = read_next l0 l3 nx2 ls1 c.head r3 hh in
      let (l4, e4, r4) = then_last l0 l3 nx2 ls1 x t r3 hx in
      let (n4, g4, a4, b4) = read_next l0 l4 nx2 ls2 x r4 hx in
      let (l5, e5, r5) = then_next l0 l4 nx2 ls2 x c.head r4 hx in
      let (l6, e6, r6) = then_last l0 l5 (upd nx2 x c.head) ls2 c.head x r5 hh in
      (l6, rw (read l0 x hx, e1, g1, a1 ∙ en, b1, e2, g2, b2, e3, g3, b3, e4, e5, g4, a4, e6), r6)
