-- ===== src/Util/Path/Tests.antt =====
-- Runs of util/path.h, with its examples, and its theorem at a concrete input.
use selib.Prelude.{◌≡◌, refl, none, some, [], ◌∷◌, Str}
use selib.Util.Path.{path_split, path_join, base_of, last_slash, is_absolute}
use selib.Util.Path.Laws.{HasNoSlash, restored, join_of_split}

-- "/fo/b/a", "/fo/b/" and "a"
abbrev full : Str
full = 47 ∷ 102 ∷ 111 ∷ 47 ∷ 98 ∷ 47 ∷ 97 ∷ []

abbrev folder : Str
folder = 47 ∷ 102 ∷ 111 ∷ 47 ∷ 98 ∷ 47 ∷ []

abbrev leaf : Str
leaf = 97 ∷ []

path_split-full : path_split (some full) (some leaf) none ≡ some (some folder, none)
unfolding path_split base_of last_slash
path_split-full = refl

path_split-leaf : path_split (some leaf) (some []) (some []) ≡ some (some (46 ∷ []), some leaf)
unfolding path_split base_of last_slash
path_split-leaf = refl

path_join-folder : path_join (some folder) (some leaf) ≡ some full
unfolding path_join is_absolute
path_join-folder = refl

path_join-absolute : path_join (some leaf) (some folder) ≡ some folder
unfolding path_join is_absolute
path_join-absolute = refl

-- A null child is read where the directory is empty or ends in a '/', and is left out elsewhere.
path_join-null : path_join (some folder) none ≡ none
unfolding path_join is_absolute
path_join-null = refl

path_join-null_child : path_join (some leaf) none ≡ some leaf
unfolding path_join is_absolute
path_join-null_child = refl

join_of_split_example :
    (d : Str) × (n : Str) × (path_split (some full) (some leaf) (some []) ≡ some (some d, some n))
    × HasNoSlash n
    × (path_join (some d) (some n) ≡ some (restored full))
join_of_split_example = join_of_split full leaf []
