-- ===== src/Algorithm/InsertSort/Laws.antt =====
-- `insert_sort` of algorithm/algo_sort.h stays in the array, and sorts it.
use selib.Prelude.{
  ℕ, suc, ◌+◌, ◌≡◌, ◌∙◌, ap, refl, true, false, inl, inr, some, List, [], ◌∷◌, ◌++◌, ltb, lt→ltb,
  if◌then◌else◌, ◌>>=◌, get_elem?, set, length, arith, Bool-cases,
}
use mathlib.Core.List.{Perm, perm_middle, append-nil}
use mathlib.Core.List.Perm
use selib.Algorithm.Sorted.{IsSorted, IsBelow, IsSorted-insert, IsSorted-cons}
use selib.Algorithm.InsertSort.{write, shift, round, rounds, insert_sort}

-- The part before the hole, nearest element first, put back in front of a list.
abbrev rev_onto : List ℕ → List ℕ → List ℕ
rev_onto [] l = l
rev_onto (x ∷ rs) l = rev_onto rs (x ∷ l)

length-rev_onto : (rs l : List ℕ) → length (rev_onto rs l) ≡ length rs + length l
length-rev_onto [] l = omega arith
length-rev_onto (x ∷ rs) l = omega (arith, length-rev_onto rs (x ∷ l))

get-rev_onto : (rs l : List ℕ) (j : ℕ) → get_elem? (rev_onto rs l) (length rs + j) ≡ get_elem? l j
get-rev_onto [] l j = ap (get_elem? l) (omega arith)
get-rev_onto (x ∷ rs) l j =
    ap (get_elem? (rev_onto rs (x ∷ l))) (omega arith) ∙ get-rev_onto rs (x ∷ l) (suc j)

set-rev_onto :
    (rs l : List ℕ) (j v : ℕ) → set (rev_onto rs l) (length rs + j) v ≡ rev_onto rs (set l j v)
set-rev_onto [] l j v = ap (λ (i : ℕ). set l i v) (omega arith)
set-rev_onto (x ∷ rs) l j v =
    ap (λ (i : ℕ). set (rev_onto rs (x ∷ l)) i v) (omega arith) ∙ set-rev_onto rs (x ∷ l) (suc j) v

rev_onto-append : (rs l r : List ℕ) → rev_onto rs (l ++ r) ≡ rev_onto rs l ++ r
rev_onto-append [] l r = refl
rev_onto-append (x ∷ rs) l r = rev_onto-append rs (x ∷ l) r

rev_onto-rev_onto : (p q r : List ℕ) → rev_onto (rev_onto p q) r ≡ rev_onto q (p ++ r)
rev_onto-rev_onto [] q r = refl
rev_onto-rev_onto (x ∷ p) q r = rev_onto-rev_onto p (x ∷ q) r

write-rev_onto :
    (rs l : List ℕ) (x v j : ℕ)
    → j ≡ length rs
    → write (rev_onto rs (x ∷ l)) j v ≡ some (rev_onto rs (v ∷ l))
unfolding write
write-rev_onto rs l x v j e =
    let inside : ltb j (length (rev_onto rs (x ∷ l))) ≡ true =
      lt→ltb _ _ (omega (arith, length-rev_onto rs (x ∷ l))) in
    let at : set (rev_onto rs (x ∷ l)) j v ≡ rev_onto rs (v ∷ l) =
      ap (λ (i : ℕ). set (rev_onto rs (x ∷ l)) i v) (omega arith) ∙ set-rev_onto rs (x ∷ l) 0 v in
    rw (inside, at)

-- The two branches of the inner loop.
shift-greater :
    (key j x : ℕ) (arr arr' : List ℕ)
    → get_elem? arr j ≡ some x
    → ltb key x ≡ true
    → write arr (j + 1) x ≡ some arr'
    → shift key (suc j) arr ≡ shift key j arr'
unfolding shift
shift-greater key j x arr arr' g e w = ground (arith, g, e, w)

shift-stop :
    (key j x : ℕ) (arr : List ℕ)
    → get_elem? arr j ≡ some x
    → ltb key x ≡ false
    → shift key (suc j) arr ≡ some (arr, suc j)
unfolding shift
shift-stop key j x arr g e = ground (arith, g, e)

-- Where the key goes: `rs` is what stands before it, nearest element first, `ts` what has been shifted.
place : List ℕ → ℕ → List ℕ → List ℕ
place [] key ts = key ∷ ts
place (x ∷ rs) key ts = if ltb key x then place rs key (x ∷ ts) else rev_onto (x ∷ rs) (key ∷ ts)

shift-place :
    (key : ℕ) (rs : List ℕ) (h : ℕ) (ts : List ℕ)
    → (shift key (length rs) (rev_onto rs (h ∷ ts)) >>= λ r. write r.0 r.1 key)
      ≡ some (place rs key ts)
unfolding place
shift-place key [] h ts = unfold shift in write-rev_onto [] ts h key 0 refl
shift-place key (x ∷ rs) h ts =
    let here : get_elem? (rev_onto rs (x ∷ h ∷ ts)) (length rs) ≡ some x =
      ap (get_elem? (rev_onto rs (x ∷ h ∷ ts))) (omega arith) ∙ get-rev_onto rs (x ∷ h ∷ ts) 0 in
    let moved : write (rev_onto (x ∷ rs) (h ∷ ts)) (length rs + 1) x
        ≡ some (rev_onto (x ∷ rs) (x ∷ ts)) =
      write-rev_onto (x ∷ rs) ts h x (length rs + 1) (omega arith) in
    elim (Bool-cases (ltb key x)) [
      | inl e ↦
          rw (shift-greater key (length rs) x _ _ here e moved, e) (shift-place key rs x (x ∷ ts))
      | inr e ↦
          rw (shift-stop key (length rs) x _ here e, e)
            (write-rev_onto (x ∷ rs) ts h key (suc (length rs)) refl)
    ]

-- One round puts the next element into the part before it.
round-place :
    (p : List ℕ) (key : ℕ) (rest : List ℕ)
    → round (length p) (p ++ key ∷ rest) ≡ some (place (rev_onto p []) key rest)
unfolding round
round-place p key rest =
    let rs : List ℕ = rev_onto p [] in
    let whole : rev_onto rs (key ∷ rest) ≡ p ++ key ∷ rest = rev_onto-rev_onto p [] (key ∷ rest) in
    let long : length rs ≡ length p = omega (arith, length-rev_onto p []) in
    let here : get_elem? (rev_onto rs (key ∷ rest)) (length rs) ≡ some key =
      ap (get_elem? (rev_onto rs (key ∷ rest))) (omega arith) ∙ get-rev_onto rs (key ∷ rest) 0 in
    rw (← whole, ← long, here) (shift-place key rs key rest)

place-append :
    (rs : List ℕ) (key : ℕ) (ts r : List ℕ) → place rs key (ts ++ r) ≡ place rs key ts ++ r
unfolding place
place-append [] key ts r = refl
place-append (x ∷ rs) key ts r = elim (Bool-cases (ltb key x)) [
  | inl e ↦ rw e (place-append rs key (x ∷ ts) r)
  | inr e ↦ rw e (rev_onto-append rs (x ∷ key ∷ ts) r)
]

length-place :
    (rs : List ℕ) (key : ℕ) (ts : List ℕ) → length (place rs key ts) ≡ suc (length rs + length ts)
unfolding place
length-place [] key ts = omega arith
length-place (x ∷ rs) key ts = elim (Bool-cases (ltb key x)) [
  | inl e ↦ rw e (omega (arith, length-place rs key (x ∷ ts)))
  | inr e ↦ rw e (omega (arith, length-rev_onto rs (x ∷ key ∷ ts)))
]

-- All rounds: insertion of the elements of the second list into the first.
insert_all : List ℕ → List ℕ → List ℕ
insert_all p [] = p
insert_all p (key ∷ rest) = insert_all (place (rev_onto p []) key []) rest

rounds-insert_all :
    (rest p : List ℕ) → rounds (length rest) (length p) (p ++ rest) ≡ some (insert_all p rest)
unfolding rounds insert_all
rounds-insert_all [] p = rw (append-nil p)
rounds-insert_all (key ∷ rest) p =
    let q : List ℕ = place (rev_onto p []) key [] in
    let one : length q ≡ length p + 1 =
      omega (arith, length-place (rev_onto p []) key [], length-rev_onto p []) in
    rw (round-place p key rest, place-append (rev_onto p []) key [] rest, ← one)
      (rounds-insert_all rest q)

-- The key keeps the order.
rev_onto-++ : (rs l : List ℕ) → rev_onto rs l ≡ rev_onto rs [] ++ l
rev_onto-++ rs l = rev_onto-append rs [] l

place-IsSorted :
    (rs : List ℕ) (key : ℕ) (ts : List ℕ)
    → IsSorted (rev_onto rs ts)
    → IsBelow key ts
    → IsSorted (place rs key ts)
unfolding place
place-IsSorted [] key ts s b = IsSorted-cons key ts b s
place-IsSorted (x ∷ rs) key ts s b = elim (Bool-cases (ltb key x)) [
  | inl e ↦ rw e (place-IsSorted rs key (x ∷ ts) s (ground arith))
  | inr e ↦
      rw (e, rev_onto-++ rs (x ∷ key ∷ ts))
        (IsSorted-insert (rev_onto rs []) x key ts (rw (rev_onto-++ rs (x ∷ ts)) at s)
          (ground arith) b)
]

place-perm : (rs : List ℕ) (key : ℕ) (ts : List ℕ) → Perm (place rs key ts) (key ∷ rev_onto rs ts)
unfolding place
place-perm [] key ts = Perm.refl (key ∷ ts)
place-perm (x ∷ rs) key ts = elim (Bool-cases (ltb key x)) [
  | inl e ↦ rw e (place-perm rs key (x ∷ ts))
  | inr e ↦
      rw (e, rev_onto-++ rs (x ∷ key ∷ ts), rev_onto-++ rs (x ∷ ts))
        (Perm.trans (Perm.append_left (rev_onto rs []) (Perm.swap key x ts))
          (perm_middle (rev_onto rs []) (x ∷ ts)))
]

insert_all-IsSorted : (rest p : List ℕ) → IsSorted p → IsSorted (insert_all p rest)
unfolding insert_all
insert_all-IsSorted [] p s = s
insert_all-IsSorted (key ∷ rest) p s =
    let back : rev_onto (rev_onto p []) [] ≡ p = rev_onto-rev_onto p [] [] ∙ append-nil p in
    insert_all-IsSorted rest _ (place-IsSorted (rev_onto p []) key [] (rw back s) tt)

insert_all-perm : (rest p : List ℕ) → Perm (insert_all p rest) (p ++ rest)
unfolding insert_all
insert_all-perm [] p = rw (append-nil p) (Perm.refl p)
insert_all-perm (key ∷ rest) p =
    let back : rev_onto (rev_onto p []) [] ≡ p = rev_onto-rev_onto p [] [] ∙ append-nil p in
    let one : Perm (place (rev_onto p []) key []) (key ∷ p) =
      rw back at (place-perm (rev_onto p []) key []) in
    Perm.trans (insert_all-perm rest _)
      (Perm.trans (Perm.append_right rest one) (Perm.symm (perm_middle p rest)))

-- `insert_sort` reads and writes inside the array only, and leaves in it the same elements, as often, in
-- ascending order.
pub insert_sort_lem :
    (arr : List ℕ) → (out : List ℕ) × (insert_sort arr ≡ some out) × IsSorted out × Perm out arr
unfolding insert_sort
insert_sort_lem [] = ([], unfold rounds in refl, tt, Perm.refl [])
insert_sort_lem (x ∷ rest) = (
  insert_all (x ∷ []) rest,
  ap (λ (n : ℕ). rounds n 1 (x ∷ rest)) (omega arith) ∙ rounds-insert_all rest (x ∷ []),
  insert_all-IsSorted rest (x ∷ []) tt,
  insert_all-perm rest (x ∷ []),
)
