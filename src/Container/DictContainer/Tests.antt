-- ===== src/Container/DictContainer/Tests.antt =====
-- Runs of container/dict_container.h on a pair of pointers, and its theorems at concrete inputs.
use selib.Prelude.{
  ℕ, ◌≡◌, refl, true, false, Option, none, some, List, [], ◌∷◌, ◌++◌, if◌then◌else◌, eq_str,
}
use selib.Util.FileWatcher.{check_and_update_timestamp, unwatched}
use selib.Util.FileWatcher
use selib.Container.DictContainer.{
  PointerFlipper, DictContainer, fresh, init, reload, get_dict, get_back_dict, release_all,
  released,
}
use selib.Container.DictContainer.Versions.{Visit, Versions, visits, first_version}
use selib.Container.DictContainer.Laws.{reloads, history_lem, failed_reload}

abbrev pair : PointerFlipper ℕ (Option ℕ × Option ℕ)
pair = record {
  create = λ f b. (f, b);
  set_back_pointer = λ p b. (p.0, b);
  flip = λ p. (p.1, p.0);
  fore_pointer = λ p. p.0;
  back_pointer = λ p. p.1;
  fore-create = λ f b. refl;
  back-create = λ f b. refl;
  fore-set_back_pointer = λ p b. refl;
  back-set_back_pointer = λ p b. refl;
  fore-flip = λ p. refl;
  back-flip = λ p. refl;
}

abbrev start : DictContainer (Option ℕ × Option ℕ) ℕ
start =
    (init pair (λ f. some 100) (λ f a. some 1) (some (102 ∷ [])) none (fresh pair (none, none))).1

-- The time and the content of the one file that there is.
abbrev only : Option ℕ → Option ℕ → Visit ℕ ℕ
only mtime loaded = record {
  stat = λ f. if eq_str f (102 ∷ []) then mtime else none;
  load = λ f a. if eq_str f (102 ∷ []) then loaded else none;
}

abbrev history : List (Visit ℕ ℕ)
history =
    only (some 100) (some 2)
    ∷ only (some 105) (some 3)
    ∷ only none (some 4)
    ∷ only (some 110) none
    ∷ only (some 110) (some 5)
    ∷ []

held : get_dict pair (reloads pair history start) ≡ some 3
unfolding get_dict reloads init reload fresh FileWatcher.create check_and_update_timestamp unwatched
held = refl

abbrev versions : Versions ℕ
versions = visits (102 ∷ []) none history (first_version (some 100) 1)

history_lem_example :
    (get_dict pair (reloads pair history start) ≡ versions.newest)
    × (get_back_dict pair (reloads pair history start) ≡ versions.older)
    × (release_all pair (reloads pair history start)
        ≡ released versions.newest ++ released versions.older)
history_lem_example =
    history_lem pair (λ f. some 100) (λ f a. some 1) 1 (102 ∷ []) none (none, none) history refl

fails : (reload pair (λ f. some 110) (λ f a. none) start).0 ≡ false
unfolding reload init fresh FileWatcher.create check_and_update_timestamp unwatched
fails = refl

failed_reload_example :
    reload pair (λ f. some 110) (λ f a. some 7) (reload pair (λ f. some 110) (λ f a. none) start).1
    ≡ (true, (reload pair (λ f. some 110) (λ f a. none) start).1)
failed_reload_example = failed_reload pair (λ f. some 110) (λ f a. none) (λ f a. some 7) start fails
