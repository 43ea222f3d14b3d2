-- ===== src/Container/DictContainer/Laws.antt =====
-- container/dict_container.h: which dictionaries a container holds after any history of `reload`.
use selib.Prelude.{
  ℕ, ◌≡◌, refl, sym, ap, ◌∙◌, Bool, true, false, inl, inr, Option, none, some, List, [], ◌∷◌, ◌++◌,
  Str, ltb, arith, Bool-cases, Option-cases,
}
use mathlib.Core.Path.{subst}
use selib.Util.FileWatcher.{FileWatcher, unwatched, check_and_update_timestamp}
use selib.Util.FileWatcher
use selib.Container.DictContainer.Versions.{
  Visit, Versions, version_loaded, visited, visits, first_version,
}
use selib.Container.DictContainer.{
  PointerFlipper, DictContainer, fresh, init, reload, get_dict, get_back_dict, release_all,
  released,
}

module _ {ℓ} {D P A : Type ℓ} (flipper : PointerFlipper D P) where
  unfoldable pub reloads : List (Visit A D) → DictContainer P A → DictContainer P A
  reloads [] c = c
  reloads (e ∷ es) c = reloads es (reload flipper e.stat e.load c).1

  -- The container holds the versions.
  pub Holds : DictContainer P A → Versions D → Type ℓ
  Holds c v =
      (flipper.fore_pointer c.bp ≡ v.newest)
      × (flipper.back_pointer c.bp ≡ v.older)
      × (c.fw.last_ts ≡ v.seen)
      × (c.initialized ≡ true)

  -- The file that the container loads and watches, and its parameter.
  abbrev Loads : Str → Option A → DictContainer P A → Type ℓ
  Loads file para c = (c.fw.file_path ≡ file) × (c.file ≡ file) × (c.para ≡ para)

  -- A `reload` by the modification time and the result of `load`.
  abbrev met : Option ℕ → Option D → DictContainer P A → Bool × DictContainer P A
  met m d c = reload flipper (λ file. m) (λ file para. d) c

  met_gone : (d : Option D) (c : DictContainer P A) → met none d c ≡ (true, c)
  unfolding reload check_and_update_timestamp
  met_gone d c = refl

  met_same :
      (m : ℕ) (d : Option D) (c : DictContainer P A)
      → ltb c.fw.last_ts m ≡ false
      → met (some m) d c ≡ (true, record c { fw = record c.fw { last_ts = m } })
  unfolding reload check_and_update_timestamp
  met_same m d c e = rw e

  met_failed :
      (m : ℕ) (c : DictContainer P A)
      → ltb c.fw.last_ts m ≡ true
      → met (some m) none c ≡ (false, record c { fw = record c.fw { last_ts = m } })
  unfolding reload check_and_update_timestamp
  met_failed m c e = rw e

  met_newer :
      (m : ℕ) (d : D) (c : DictContainer P A)
      → ltb c.fw.last_ts m ≡ true
      → met (some m) (some d) c ≡ (
        true,
        record c {
          fw = record c.fw { last_ts = m };
          bp = flipper.flip (flipper.set_back_pointer c.bp (some d));
        },
      )
  unfolding reload check_and_update_timestamp
  met_newer m d c e = rw e

  met-Holds :
      (m : Option ℕ) (d : Option D) (c : DictContainer P A) (v : Versions D)
      → Holds c v
      → Holds (met m d c).1 (visited m d v)
  unfolding Holds visited version_loaded
  met-Holds none d c v h = rw (met_gone d c) h
  met-Holds (some m) none c v (f, b, t, i) = elim (Bool-cases (ltb c.fw.last_ts m)) [
    | inr e ↦ rw (met_same m none c e, ← t, e) (f, b, refl, i)
    | inl e ↦ rw (met_failed m c e, ← t, e) (f, b, refl, i)
  ]
  met-Holds (some m) (some d) c v (f, b, t, i) = elim (Bool-cases (ltb c.fw.last_ts m)) [
    | inr e ↦ rw (met_same m (some d) c e, ← t, e) (f, b, refl, i)
    | inl e ↦
        let p : P = flipper.set_back_pointer c.bp (some d) in
        rw (met_newer m d c e, ← t, e)
          (
            flipper.fore-flip p ∙ flipper.back-set_back_pointer c.bp (some d),
            flipper.back-flip p ∙ flipper.fore-set_back_pointer c.bp (some d) ∙ f,
            refl,
            i,
          )
  ]

  -- A `reload` depends on the time of its file and on what `load` gives for its file and parameter.
  reload-met :
      (stat : Str → Option ℕ) (load : Str → Option A → Option D) (c : DictContainer P A)
      → reload flipper stat load c ≡ met (stat c.fw.file_path) (load c.file c.para) c
  unfolding reload check_and_update_timestamp
  reload-met stat load c = refl

  met-Loads :
      (file : Str) (para : Option A) (m : Option ℕ) (d : Option D) (c : DictContainer P A)
      → Loads file para c
      → Loads file para (met m d c).1
  met-Loads file para none d c h = rw (met_gone d c) h
  met-Loads file para (some m) none c h = elim (Bool-cases (ltb c.fw.last_ts m)) [
    | inr e ↦ rw (met_same m none c e) h
    | inl e ↦ rw (met_failed m c e) h
  ]
  met-Loads file para (some m) (some d) c h = elim (Bool-cases (ltb c.fw.last_ts m)) [
    | inr e ↦ rw (met_same m (some d) c e) h
    | inl e ↦ rw (met_newer m d c e) h
  ]

  reloads-Holds :
      (file : Str) (para : Option A) (es : List (Visit A D)) (c : DictContainer P A)
      (v : Versions D)
      → Loads file para c
      → Holds c v
      → Holds (reloads es c) (visits file para es v)
  unfolding reloads visits
  reloads-Holds file para [] c v l h = h
  reloads-Holds file para (e ∷ es) c v (w, f, p) h =
      let m : Option ℕ = e.stat file in
      let d : Option D = e.load file para in
      let same : reload flipper e.stat e.load c ≡ met m d c =
        reload-met e.stat e.load c
        ∙ ap (λ x. met (e.stat x) (e.load c.file c.para) c) w
        ∙ ap (λ x. met m (e.load x c.para) c) f
        ∙ ap (λ x. met m (e.load file x) c) p in
      subst (λ r. Holds (reloads es r.1) (visits file para es (visited m d v))) (sym same)
        (reloads-Holds file para es (met m d c).1 (visited m d v)
          (met-Loads file para m d c (w, f, p)) (met-Holds m d c v h))

  -- A new container after `init`, by the parameter that it takes over, the result of `load` and the time.
  abbrev begun : Str → Option A → P → D → Option ℕ → DictContainer P A
  begun file para bp d m = record {
    bp = flipper.create (some d) none;
    fw = elim m [
      | none ↦ record { file_path = file; last_ts = 0 }
      | some t ↦ record { file_path = file; last_ts = t }
    ];
    file = file;
    para = para;
    initialized = true;
  }

  init_lem :
      (stat : Str → Option ℕ) (load : Str → Option A → Option D) (d : D) (file : Str)
      (para : Option A) (bp : P)
      → load file para ≡ some d
      → init flipper stat load (some file) para (fresh flipper bp)
        ≡ (true, begun file para bp d (stat file))
  unfolding init fresh FileWatcher.create unwatched
  init_lem stat load d file none bp e = elim (Option-cases (stat file)) [
    | inl s ↦ rw (init, e, FileWatcher.create, s) refl
    | inr (t, s) ↦ rw (init, e, FileWatcher.create, s) refl
  ]
  init_lem stat load d file (some a) bp e = elim (Option-cases (stat file)) [
    | inl s ↦ rw (init, e, FileWatcher.create, s) refl
    | inr (t, s) ↦ rw (init, e, FileWatcher.create, s) refl
  ]

  begun-Holds :
      (m : Option ℕ) (d : D) (file : Str) (para : Option A) (bp : P)
      → Loads file para (begun file para bp d m)
        × Holds (begun file para bp d m) (first_version m d)
  unfolding Holds first_version
  begun-Holds none d file para bp = (
    (refl, refl, refl),
    (flipper.fore-create (some d) none, flipper.back-create (some d) none, refl, refl),
  )
  begun-Holds (some t) d file para bp = (
    (refl, refl, refl),
    (flipper.fore-create (some d) none, flipper.back-create (some d) none, refl, refl),
  )

  -- After an `init` of a new container that loads a dictionary, and any sequence of `reload`, `get_dict` gives
  -- the newest of the versions and `get_back_dict` the one before it, where a `reload` makes a new version
  -- exactly when the file given to `init` has a later time than at the last visit and `load` of that file
  -- with the parameter given to `init` gives a dictionary; `release_all` releases these two.
  pub history_lem :
      (stat : Str → Option ℕ) (load : Str → Option A → Option D) (d : D) (file : Str)
      (para : Option A) (bp : P) (es : List (Visit A D))
      → load file para ≡ some d
      → let c = reloads es (init flipper stat load (some file) para (fresh flipper bp)).1 in
        let v = visits file para es (first_version (stat file) d) in
        (get_dict flipper c ≡ v.newest)
        × (get_back_dict flipper c ≡ v.older)
        × (release_all flipper c ≡ released v.newest ++ released v.older)
  unfolding Holds get_dict get_back_dict release_all
  history_lem stat load d file para bp es e =
      let (l, h) = begun-Holds (stat file) d file para bp in
      let same = ap (λ r. r.1) (init_lem stat load d file para bp e) in
      let (f, b, t, i) =
        subst (λ c. Holds (reloads es c) (visits file para es (first_version (stat file) d)))
          (sym same)
          (reloads-Holds file para es (begun file para bp d (stat file))
            (first_version (stat file) d) l h) in
      (rw (i, f), rw (i, b), rw (f, b))

  failed_lem :
      (m : Option ℕ) (d : Option D) (c : DictContainer P A)
      → (met m d c).0 ≡ false
      → (t : ℕ) × (m ≡ some t) × ((met m d c).1 ≡ record c { fw = record c.fw { last_ts = t } })
  failed_lem none d c h = absurd (let k = rw (met_gone d c) at h in cc)
  failed_lem (some t) none c h = elim (Bool-cases (ltb c.fw.last_ts t)) [
    | inl e ↦ (t, refl, ap (λ r. r.1) (met_failed t c e))
    | inr e ↦ (t, refl, ap (λ r. r.1) (met_same t none c e))
  ]
  failed_lem (some t) (some d) c h = elim (Bool-cases (ltb c.fw.last_ts t)) [
    | inl e ↦ absurd (let k = rw (met_newer t d c e) at h in cc)
    | inr e ↦ (t, refl, ap (λ r. r.1) (met_same t (some d) c e))
  ]

  again :
      (t : ℕ) (d : Option D) (c : DictContainer P A)
      → c.fw.last_ts ≡ t
      → met (some t) d c ≡ (true, c)
  again t d c e =
      met_same t d c (ground (arith, e))
      ∙ ap (λ (k : ℕ). (true, record c { fw = record c.fw { last_ts = k } })) (sym e)

  -- A `reload` that fails to load a newer file is not made up for: as long as the file keeps its time, the
  -- next `reload` returns 0, loads nothing and changes nothing.
  pub failed_reload :
      (stat : Str → Option ℕ) (load load' : Str → Option A → Option D) (c : DictContainer P A)
      → (reload flipper stat load c).0 ≡ false
      → let c' = (reload flipper stat load c).1 in reload flipper stat load' c' ≡ (true, c')
  failed_reload stat load load' c h =
      let (t, m, e) =
        failed_lem (stat c.fw.file_path) (load c.file c.para) c
          (rw (reload-met stat load c) at h) in
      let c1 : DictContainer P A = record c { fw = record c.fw { last_ts = t } } in
      let same : (reload flipper stat load c).1 ≡ c1 = rw (reload-met stat load c) e in
      rw (same, reload-met stat load' c1, m) (again t (load' c.file c.para) c1 refl)
