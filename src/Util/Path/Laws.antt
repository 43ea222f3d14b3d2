-- ===== src/Util/Path/Laws.antt =====
-- util/path.h: what `path_split` takes apart, `path_join` puts together.
use selib.Prelude.{
  ℕ, zero, suc, ◌-◌, ◌<◌, ◌≡◌, refl, ap, ◌∙◌, false, inl, inr, none, some, [], ◌∷◌, ◌++◌, ◌==◌,
  if◌then◌else◌, get_or, take, drop, length, Str, arith, Option-cases, take-append-drop,
  length-take, ne→==,
}
use selib.Util.Path.{slash, dot, last_slash, base_of, path_split, is_absolute, path_join}

-- No character is a '/'.
abbrev pub HasNoSlash : Str → Type 0
HasNoSlash [] = Unit
HasNoSlash (c ∷ s) = ((c == slash) ≡ false) × HasNoSlash s

no_slash : (s : Str) → last_slash s ≡ none → HasNoSlash s
unfolding last_slash
no_slash [] h = tt
no_slash (c ∷ s) h = elim (Option-cases (last_slash s)) [
  | inl e ↦ (ground (arith, e, h), no_slash s e)
  | inr (i, e) ↦ ground (arith, e, h)
]

-- The position of the last '/': it is in the string, and none comes after it.
abbrev IsLast : Str → ℕ → Type 0
IsLast s i = (i < length s) × (get_or s i 0 ≡ slash) × HasNoSlash (drop (suc i) s)

last_slash_lem : (s : Str) (i : ℕ) → last_slash s ≡ some i → IsLast s i
unfolding last_slash
last_slash_lem [] i h = ground arith
last_slash_lem (c ∷ s) zero h = elim (Option-cases (last_slash s)) [
  | inl e ↦ (omega arith, ground (arith, e, h), no_slash s e)
  | inr (j, e) ↦ ground (arith, e, h)
]
last_slash_lem (c ∷ s) (suc i) h = elim (Option-cases (last_slash s)) [
  | inl e ↦ ground (arith, e, h)
  | inr (j, e) ↦ let (a, b, n) = last_slash_lem s i (ground (arith, e, h)) in (omega arith, b, n)
]

get_or-take : (n i : ℕ) (s : Str) → i < n → get_or (take n s) i 0 ≡ get_or s i 0
get_or-take zero i s h = absurd (omega arith)
get_or-take (suc n) i [] h = refl
get_or-take (suc n) zero (c ∷ s) h = refl
get_or-take (suc n) (suc i) (c ∷ s) h = get_or-take n i s (omega arith)

relative : (s : Str) → HasNoSlash s → is_absolute (some s) ≡ false
unfolding is_absolute
relative [] h = refl
relative (c ∷ s) h = h.0

-- A relative child is put after the directory, with a '/' between where the directory has none.
join_slash :
    (d c : Str)
    → HasNoSlash c
    → 0 < length d
    → get_or d (length d - 1) 0 ≡ slash
    → path_join (some d) (some c) ≡ some (d ++ c)
unfolding path_join
join_slash d c h pos e = rw (relative c h, e, ne→== (length d) 0 (omega arith))

-- What a path without a directory is put back with.
pub restored : Str → Str
restored path = elim (last_slash path) [ none ↦ dot ∷ slash ∷ path | some i ↦ path ]

restored_relative : (path : Str) → last_slash path ≡ none → restored path ≡ dot ∷ slash ∷ path
unfolding restored
restored_relative path e = ground (arith, e)

restored_nested : (path : Str) (i : ℕ) → last_slash path ≡ some i → restored path ≡ path
unfolding restored
restored_nested path i e = ground (arith, e)

base_relative : (path : Str) → last_slash path ≡ none → base_of path ≡ 0
unfolding base_of
base_relative path e = ground (arith, e)

base_nested : (path : Str) (i : ℕ) → last_slash path ≡ some i → base_of path ≡ suc i
unfolding base_of
base_nested path i e = ground (arith, e)

split_at :
    (path dir name : Str) (b : ℕ)
    → base_of path ≡ b
    → path_split (some path) (some dir) (some name)
      ≡ some (some (if b == 0 then dot ∷ [] else take b path), some (drop b path))
unfolding path_split
split_at path dir name b e = rw e

-- `path_split` of a path succeeds, its name has no '/', and `path_join` of its directory and its name is
-- the path, behind "./" where the path has no '/'.
pub join_of_split :
    (path dir name : Str)
    → (d : Str) × (n : Str) × (path_split (some path) (some dir) (some name)
        ≡ some (some d, some n))
      × HasNoSlash n
      × (path_join (some d) (some n) ≡ some (restored path))
join_of_split path dir name = elim (Option-cases (last_slash path)) [
  | inl e ↦
      let n = no_slash path e in
      (
        dot ∷ [],
        path,
        split_at path dir name 0 (base_relative path e),
        n,
        rw (restored_relative path e) (unfold path_join in rw (relative path n)),
      )
  | inr (i, e) ↦
      let (inside, at, n) = last_slash_lem path i e in
      let d : Str = take (suc i) path in
      let long : length d ≡ suc i = omega (arith, length-take (suc i) path) in
      let ends : get_or d (length d - 1) 0 ≡ slash =
        ap (λ (k : ℕ). get_or d k 0) (omega arith)
        ∙ get_or-take (suc i) i path (omega arith)
        ∙ at in
      (
        d,
        drop (suc i) path,
        rw (split_at path dir name (suc i) (base_nested path i e), ne→== (suc i) 0 (omega arith)),
        n,
        rw (
          join_slash d (drop (suc i) path) n (omega arith) ends,
          restored_nested path i e,
          take-append-drop (suc i) path,
        ),
      )
]
