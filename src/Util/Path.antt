-- ===== src/Util/Path.antt =====
-- util/path.h: `path_split` and `path_join`. A null pointer to a string is `none`; a `none` outside is a
-- read through a null pointer.
pub mod Laws
mod Tests
use selib.Prelude.{
  ℕ, zero, suc, ◌+◌, ◌-◌, Bool, true, false, ◌&&◌, ◌||◌, Option, none, some, List, [], ◌∷◌, ◌++◌,
  ◌==◌, if◌then◌else◌, get_or, take, drop, length, Str,
}
use mathlib.Core.Option

-- The code of '/', and of '.'.
abbrev pub slash : ℕ
slash = 47

abbrev pub dot : ℕ
dot = 46

-- `strrchr(path, '/')`, as a position.
pub last_slash : Str → Option ℕ
last_slash [] = none
last_slash (c ∷ s) = elim (last_slash s) [
  | some i ↦ some (suc i)
  | none ↦ if c == slash then some 0 else none
]

-- `base - path`
pub base_of : Str → ℕ
unfolding last_slash
base_of path = elim (last_slash path) [ none ↦ 0 | some sep ↦ sep + 1 ]

-- `path_split`: the arguments after the path are what `dir` and `name` point to before the call, and the
-- result has what they point to after it, where it is not `false`.
pub path_split : Option Str → Option Str → Option Str → Option (Option Str × Option Str)
unfolding base_of
path_split none dir name = none
path_split (some path) dir name = some (
  Option.map (λ d. if base_of path == 0 then dot ∷ [] else take (base_of path) path) dir,
  Option.map (λ n. drop (base_of path) path) name,
)

-- `child != NULL && child[0] == '/'`
pub is_absolute : Option Str → Bool
is_absolute none = false
is_absolute (some child) = get_or child 0 0 == slash

pub path_join : Option Str → Option Str → Option Str
unfolding is_absolute
path_join dir child =
    let path : Str = elim dir [ none ↦ [] | some d ↦ d ] in
    let s : ℕ = length path in
    if is_absolute child
    then child
    else if (s == 0) || (get_or path (s - 1) 0 == slash)
    then Option.map (λ c. path ++ c) child
    else some (elim child [ none ↦ path | some c ↦ path ++ slash ∷ c ])
