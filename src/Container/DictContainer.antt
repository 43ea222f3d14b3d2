-- ===== src/Container/DictContainer.antt =====
-- container/dict_container.h: `DictContainer`. The class that holds the two pointers to the dictionaries, and
-- the `load` and `release` of the derived class, are parameters; so is `stat`. `-1` is `false`, and a null
-- pointer to a dictionary is `none`.
pub mod Versions
pub mod Laws
mod Tests
use selib.Prelude.{
  ℕ, ◌≡◌, Bool, true, false, Option, none, some, List, [], ◌∷◌, ◌++◌, if◌then◌else◌, Str, ◌>>=◌,
}
use selib.Util.Path.{path_join}
use selib.Util.FileWatcher.{FileWatcher, unwatched, check_and_update_timestamp}
use selib.Util.FileWatcher

-- `PointerFlipper`, with what its methods are named for: two pointers, of which `flip` swaps the roles.
pub record PointerFlipper {ℓ} (D : Type ℓ) (P : Type ℓ) : Type ℓ where
  pub create : Option D → Option D → P
  pub set_back_pointer : P → Option D → P
  pub flip : P → P
  pub fore_pointer : P → Option D
  pub back_pointer : P → Option D
  pub fore-create : (f b : Option D) → fore_pointer (create f b) ≡ f
  pub back-create : (f b : Option D) → back_pointer (create f b) ≡ b
  pub fore-set_back_pointer :
      (p : P) (b : Option D) → fore_pointer (set_back_pointer p b) ≡ fore_pointer p
  pub back-set_back_pointer : (p : P) (b : Option D) → back_pointer (set_back_pointer p b) ≡ b
  pub fore-flip : (p : P) → fore_pointer (flip p) ≡ back_pointer p
  pub back-flip : (p : P) → back_pointer (flip p) ≡ fore_pointer p

-- `if (NULL != p) release(p);`
pub released {ℓ} : {D : Type ℓ} → Option D → List D
released none = []
released (some d) = d ∷ []

-- `DictContainer`, and `FileStatus` in it.
pub record DictContainer {ℓ} (P : Type ℓ) (A : Type ℓ) : Type ℓ where
  pub bp : P
  pub fw : FileWatcher
  pub file : Str
  pub para : Option A
  pub initialized : Bool

module _ {ℓ} {D P A : Type ℓ} (flipper : PointerFlipper D P) where
  -- The constructor; the pointers are not set before `create`.
  pub fresh : P → DictContainer P A
  fresh bp = record { bp = bp; fw = unwatched; file = []; para = none; initialized = false }

  -- `init` of a file. `load` is given the file and the parameter.
  pub init :
      (Str → Option ℕ)
      → (Str → Option A → Option D)
      → Option Str
      → Option A
      → DictContainer P A
      → Bool × DictContainer P A
  init stat load none para c = (false, c)
  init stat load (some file) para c =
      let para' : Option A = elim para [ none ↦ c.para | some a ↦ some a ] in
      let c1 : DictContainer P A = record c { para = para'; file = file } in
      elim (load file para') [
        | none ↦ (false, c1)
        | some dict ↦ (
          true,
          record c1 {
            bp = flipper.create (some dict) none;
            fw = (FileWatcher.create stat (some c1.file) c1.fw).1;
            initialized = true;
          },
        )
      ]

  -- `init` of a path and a name; an outer `none` is a fault of `path_join`.
  pub init_in :
      (Str → Option ℕ)
      → (Str → Option A → Option D)
      → Option Str
      → Option Str
      → Option A
      → DictContainer P A
      → Option (Bool × DictContainer P A)
  unfolding init
  init_in stat load none name para c = some (false, c)
  init_in stat load (some path) none para c = some (false, c)
  init_in stat load (some path) (some name) para c =
      path_join (some path) (some name) >>= λ file. some (init stat load (some file) para c)

  -- `reload`
  pub reload :
      (Str → Option ℕ) → (Str → Option A → Option D) → DictContainer P A → Bool × DictContainer P A
  reload stat load c =
      let (newer, fw') = check_and_update_timestamp stat c.fw in
      let c1 : DictContainer P A = record c { fw = fw' } in
      if newer
      then elim (load c.file c.para) [
        | none ↦ (false, c1)
        | some b_f ↦
            (true, record c1 { bp = flipper.flip (flipper.set_back_pointer c1.bp (some b_f)) })
      ]
      else (true, c1)

  pub get_dict : DictContainer P A → Option D
  get_dict c = if c.initialized then flipper.fore_pointer c.bp else none

  pub get_back_dict : DictContainer P A → Option D
  get_back_dict c = if c.initialized then flipper.back_pointer c.bp else none

  -- The dictionaries that `release_all` releases.
  pub release_all : DictContainer P A → List D
  unfolding released
  release_all c = released (flipper.fore_pointer c.bp) ++ released (flipper.back_pointer c.bp)
