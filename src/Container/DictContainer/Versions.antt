-- ===== src/Container/DictContainer/Versions.antt =====
-- container/dict_container.h: the versions of a dictionary that a container is to hold.
use selib.Prelude.{ℕ, Option, none, some, List, [], ◌∷◌, if◌then◌else◌, Str, ltb}

-- What a `reload` meets: the modification time of each file, and what `load` gives for a file and a parameter.
pub record Visit {ℓ} (A D : Type ℓ) : Type ℓ where
  pub stat : Str → Option ℕ
  pub load : Str → Option A → Option D

-- The dictionaries that are held, the newest one first, and the time of the last visit.
pub record Versions {ℓ} (D : Type ℓ) : Type ℓ where
  pub newest : Option D
  pub older : Option D
  pub seen : ℕ

module _ {ℓ} {D : Type ℓ} where
  -- A dictionary that was loaded from a newer file goes before the newest one; the oldest is forgotten.
  unfoldable pub version_loaded : Option D → Versions D → Versions D
  version_loaded none v = v
  version_loaded (some d) v = record v { newest = some d; older = v.newest }

  -- The versions after a visit, by the time of the file and what `load` gives.
  unfoldable pub visited : Option ℕ → Option D → Versions D → Versions D
  unfolding version_loaded
  visited mtime loaded v = elim mtime [
    | none ↦ v
    | some t ↦
        if ltb v.seen t
        then version_loaded loaded (record v { seen = t })
        else record v { seen = t }
  ]

  -- Visits of one file with one parameter.
  unfoldable pub visits : {A : Type ℓ} → Str → Option A → List (Visit A D) → Versions D → Versions D
  unfolding visited
  visits file para [] v = v
  visits file para (e ∷ es) v = visits file para es (visited (e.stat file) (e.load file para) v)

  -- The first dictionary, whose file may have no time.
  unfoldable pub first_version : Option ℕ → D → Versions D
  first_version m d = record {
    newest = some d;
    older = none;
    seen = elim m [ none ↦ 0 | some t ↦ t ];
  }
