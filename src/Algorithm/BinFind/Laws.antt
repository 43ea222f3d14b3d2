-- ===== src/Algorithm/BinFind/Laws.antt =====
-- `bin_find` of algorithm/algo_sort.h in an ascending array.
use selib.Prelude.{
  ℕ, zero, suc, ◌+◌, ◌-◌, ◌/◌, ◌<◌, ◌≤◌, ◌≡◌, ◌⊎◌, inl, inr, refl, sym, ap, ◌∙◌, some, List, [],
  ◌∷◌, ltb, ◌==◌, get_elem?, get_or, length, take, drop, arith, Bool-cases, length-take,
  length-drop, get_elem?-eq-get_or, dec_lt,
}
use selib.Prelude.Int.{ℤ, pos, negsuc, ◌+ℤ◌, sub_ℕ}
use selib.Algorithm.BinFind.{bin_find}

-- No element is greater than a later one.
unfoldable pub IsAscending : List ℕ → Type 0
IsAscending arr = (i j : ℕ) → i ≤ j → j < length arr → get_or arr i 0 ≤ get_or arr j 0

-- The position of the value, or one less than the number of the smaller elements where it is missing.
pub IsFound : List ℕ → ℕ → ℤ → Type 0
IsFound arr val r =
    ((i : ℕ) × (r ≡ pos i) × (i < length arr) × (get_or arr i 0 ≡ val))
    ⊎ ((p : ℕ) × (r ≡ sub_ℕ p 1)
        × (p ≤ length arr)
        × ((i : ℕ) → i < p → get_or arr i 0 < val)
        × ((i : ℕ) → p ≤ i → i < length arr → val < get_or arr i 0))

get_or-take : (n i : ℕ) (l : List ℕ) → i < n → get_or (take n l) i 0 ≡ get_or l i 0
get_or-take zero i l h = absurd (omega arith)
get_or-take (suc n) i [] h = refl
get_or-take (suc n) zero (c ∷ l) h = refl
get_or-take (suc n) (suc i) (c ∷ l) h = get_or-take n i l (omega arith)

get_or-drop : (n i : ℕ) (l : List ℕ) → get_or (drop n l) i 0 ≡ get_or l (n + i) 0
get_or-drop zero i l = ap (λ (k : ℕ). get_or l k 0) (omega arith)
get_or-drop (suc n) i [] = refl
get_or-drop (suc n) i (c ∷ l) =
    get_or-drop n i l ∙ ap (λ (k : ℕ). get_or (c ∷ l) k 0) {x = suc (n + i)} (omega arith)

IsAscending-take : (n : ℕ) (l : List ℕ) → IsAscending l → IsAscending (take n l)
unfolding IsAscending
IsAscending-take n l h i j le lt =
    let long = length-take n l in
    omega (
      arith,
      get_or-take n i l (omega arith),
      get_or-take n j l (omega arith),
      h i j le (omega arith),
    )

IsAscending-drop : (n : ℕ) (l : List ℕ) → IsAscending l → IsAscending (drop n l)
unfolding IsAscending
IsAscending-drop n l h i j le lt =
    let long = length-drop n l in
    omega
      (arith, get_or-drop n i l, get_or-drop n j l, h (n + i) (n + j) (omega arith) (omega arith))

-- The result of a search above or below the middle.
above_lem :
    (arr : List ℕ) (mid val : ℕ) (r : ℤ)
    → IsAscending arr
    → mid < length arr
    → get_or arr mid 0 < val
    → IsFound (drop (mid + 1) arr) val r
    → IsFound arr val (pos (mid + 1) +ℤ r)
unfolding IsAscending IsFound ◌+ℤ◌
above_lem arr mid val r asc m less (inl (i, e, l, g)) = inl (
  mid + 1 + i,
  ground (arith, e),
  omega (arith, length-drop (mid + 1) arr),
  sym (get_or-drop (mid + 1) i arr) ∙ g,
)
above_lem arr mid val r asc m less (inr (p, e, l, low, high)) =
    let at : (i : ℕ)
        → mid + 1 ≤ i
        → get_or (drop (mid + 1) arr) (i - (mid + 1)) 0 ≡ get_or arr i 0 =
      λ i h.
        get_or-drop (mid + 1) (i - (mid + 1)) arr ∙ ap (λ (k : ℕ). get_or arr k 0) (omega arith) in
    let long = length-drop (mid + 1) arr in
    inr (
      mid + 1 + p,
      ground (arith, e),
      omega arith,
      λ i h. elim (dec_lt mid i) [
        | yes b ↦ omega (arith, at i (omega arith), low (i - (mid + 1)) (omega arith))
        | no b ↦ omega (arith, asc i mid (omega arith) m)
      ],
      λ i h k. omega (arith, at i (omega arith), high (i - (mid + 1)) (omega arith) (omega arith)),
    )

below_lem :
    (arr : List ℕ) (mid val : ℕ) (r : ℤ)
    → IsAscending arr
    → mid < length arr
    → val < get_or arr mid 0
    → IsFound (take mid arr) val r
    → IsFound arr val r
unfolding IsAscending IsFound
below_lem arr mid val r asc m more (inl (i, e, l, g)) =
    let in_take : i < mid = omega (arith, length-take mid arr) in
    inl (i, e, omega arith, sym (get_or-take mid i arr in_take) ∙ g)
below_lem arr mid val r asc m more (inr (p, e, l, low, high)) =
    let long = length-take mid arr in
    inr (
      p,
      e,
      omega arith,
      λ i h. omega (arith, get_or-take mid i arr (omega arith), low i h),
      λ i h k. elim (dec_lt i mid) [
        | yes b ↦ omega (arith, get_or-take mid i arr b, high i h (omega arith))
        | no b ↦ omega (arith, asc mid i (omega arith) k)
      ],
    )

-- With fuel for all elements `bin_find` in an ascending array stays inside the array and gives a position
-- of the value, or, of a missing value, the number of the smaller elements less one.
pub bin_find_lem :
    (fuel : ℕ) (arr : List ℕ) (val : ℕ)
    → IsAscending arr
    → length arr < fuel
    → (r : ℤ) × (bin_find fuel arr val ≡ some r) × IsFound arr val r
unfolding bin_find
bin_find_lem zero arr val asc h = absurd (omega arith)
bin_find_lem (suc fuel) arr val asc h = elim (Bool-cases (ltb (length arr) 1)) [
  | inl e ↦ (
    negsuc 0,
    rw e,
    unfold IsFound in
        inr
          (0, refl, omega arith, λ i l. absurd (omega arith), λ i l k. absurd (ground (arith, e))),
  )
  | inr e ↦
      let mid : ℕ = length arr / 2 in
      let x : ℕ = get_or arr mid 0 in
      let inside : mid < length arr = ground (arith, e) in
      let here : get_elem? arr mid ≡ some x = get_elem?-eq-get_or arr mid 0 inside in
      let (a, pa, fa) =
        bin_find_lem fuel (drop (mid + 1) arr) val (IsAscending-drop (mid + 1) arr asc)
          (omega (arith, length-drop (mid + 1) arr)) in
      let (b, pb, fb) =
        bin_find_lem fuel (take mid arr) val (IsAscending-take mid arr asc)
          (omega (arith, length-take mid arr)) in
      elim (Bool-cases (val == x)) [
        | inl q ↦
            (pos mid, rw (e, here, q), unfold IsFound in inl (mid, refl, inside, ground (arith, q)))
        | inr q ↦ elim (Bool-cases (ltb x val)) [
          | inl g ↦ (
            pos (mid + 1) +ℤ a,
            rw (e, here, q, g, pa),
            above_lem arr mid val a asc inside (ground (arith, g)) fa,
          )
          | inr g ↦ (
            b,
            rw (e, here, q, g) pb,
            below_lem arr mid val b asc inside (ground (arith, g, q)) fb,
          )
        ]
      ]
]
