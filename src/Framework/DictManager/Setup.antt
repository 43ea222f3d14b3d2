-- ===== src/Framework/DictManager/Setup.antt =====
-- framework/dict_manager.h: `set_dict_property` where its allocations succeed, and `get_dict_handle` after it.
use selib.Prelude.{
  ℕ, zero, suc, ◌+◌, ◌<◌, ◌≡◌, refl, sym, ap, ◌∙◌, Bool, true, false, Option, none, some, List, [],
  ◌∷◌, ◌++◌, if◌then◌else◌, get_elem?, get_or, set, length, Str, eq_str, eq_str_self, arith, map,
  length-append,
}
use mathlib.Core.Option
use mathlib.Core.Path.{subst}
use mathlib.Core.List.{append-nil, append_assoc}
use selib.Framework.DictManager.{
  object, unset, ActionInstance, DictInfo, DictManager, init_dict_property, set_info, attach,
  set_dict_property,
}
use selib.Framework.DictManager.Laws.{Property, entry, Holds}

module _ {ℓ} {A : Type ℓ} where
  get_or-end : (xs : List A) (x d : A) → get_or (xs ++ x ∷ []) (length xs) d ≡ x
  get_or-end [] x d = refl
  get_or-end (y ∷ xs) x d = get_or-end xs x d

  set-end : (xs : List A) (x y : A) → set (xs ++ x ∷ []) (length xs) y ≡ xs ++ y ∷ []
  set-end [] x y = refl
  set-end (z ∷ xs) x y = ap (◌∷◌ z) (set-end xs x y)

  get_elem?-end : (xs : List A) (x : A) → get_elem? (xs ++ x ∷ []) (length xs) ≡ some x
  get_elem?-end [] x = refl
  get_elem?-end (y ∷ xs) x = get_elem?-end xs x

  get_elem?-front :
      (xs : List A) (x : A) (i : ℕ) → i < length xs → get_elem? (xs ++ x ∷ []) i ≡ get_elem? xs i
  get_elem?-front [] x i h = absurd (omega arith)
  get_elem?-front (y ∷ xs) x zero h = refl
  get_elem?-front (y ∷ xs) x (suc i) h = get_elem?-front xs x i (omega arith)

  get_or-front :
      (xs : List A) (x : A) (i : ℕ) (d : A)
      → i < length xs
      → get_or (xs ++ x ∷ []) i d ≡ get_or xs i d
  get_or-front [] x i d h = absurd (omega arith)
  get_or-front (y ∷ xs) x zero d h = refl
  get_or-front (y ∷ xs) x (suc i) d h = get_or-front xs x i d (omega arith)

-- The manager with the entry of a property.
unfoldable pub added : Property → DictManager → DictManager
added p m = record m {
  infos = m.infos ++ some (entry (length m.dicts) p) ∷ [];
  dicts = m.dicts ++ true ∷ [];
  index2dict = λ q. if eq_str p.key q then some (length m.infos) else m.index2dict q;
  dict_key = m.dict_key ++ p.key ∷ [];
}

-- `set_dict_property` of a property.
unfoldable pub set_property : Property → DictManager → Bool × DictManager
set_property p m = set_dict_property true true true p.key p.file p.with_reload p.valid p.par m

-- A write to the newest entry.
set_info-end :
    (m : DictManager) (xs : List (Option DictInfo)) (di : DictInfo) (f : DictInfo → DictInfo)
    → set_info (length xs) f (record m { infos = xs ++ some di ∷ [] })
      ≡ record m { infos = xs ++ some (f di) ∷ [] }
unfolding set_info
set_info-end m xs di f =
    ap (λ l. record m { infos = l })
      (ap (λ o. set (xs ++ some di ∷ []) (length xs) (Option.map f o))
          (get_or-end xs (some di) none)
        ∙ set-end xs (some di) (some (f di)))

set_property_lem : (p : Property) (m : DictManager) → set_property p m ≡ (true, added p m)
unfolding set_property set_dict_property init_dict_property attach added entry
set_property_lem p m =
    let d : ℕ = length m.dicts in
    let first : DictInfo = record {
      path = p.file;
      with_reload = p.with_reload;
      dict_instance = unset;
      action = unset;
      valid = p.valid;
    } in
    let a : ActionInstance = record { dict = some d; par = p.par } in
    let f : DictInfo → DictInfo = λ di. record di { dict_instance = object d } in
    let g : DictInfo → DictInfo = λ di. record di { action = object a } in
    ap (λ x. (true, x))
      (ap (set_info (length m.infos) g) (set_info-end (added p m) m.infos first f)
        ∙ set_info-end (added p m) m.infos (f first) g)

-- The calls of `set_dict_property`, one after the other.
unfoldable pub setup : List Property → DictManager → DictManager
setup [] m = m
setup (p ∷ ps) m = setup ps (set_property p m).1

-- The same with the results of the allocations, three for a property, counted from a number.
unfoldable pub setup_with : (ℕ → Bool) → ℕ → List Property → DictManager → DictManager
setup_with alloc n [] m = m
setup_with alloc n (p ∷ ps) m =
    setup_with alloc (n + 3) ps
      (set_dict_property (alloc n) (alloc (n + 1)) (alloc (n + 2)) p.key p.file p.with_reload
        p.valid p.par m).1

pub setup_with-all :
    (alloc : ℕ → Bool) (n : ℕ) (ps : List Property) (m : DictManager)
    → ((i : ℕ) → alloc i ≡ true)
    → setup_with alloc n ps m ≡ setup ps m
unfolding setup_with setup set_property
setup_with-all alloc n [] m ok = refl
setup_with-all alloc n (p ∷ ps) m ok =
    rw (ok n, ok (n + 1), ok (n + 2)) (setup_with-all alloc (n + 3) ps (set_property p m).1 ok)

-- No property has the key.
unfoldable pub IsNew : Str → List Property → Type 0
IsNew k [] = Unit
IsNew k (p ∷ ps) = (eq_str p.key k ≡ false) × IsNew k ps

-- No two properties have the same key.
unfoldable pub IsDistinct : List Property → Type 0
IsDistinct [] = Unit
IsDistinct (p ∷ ps) = IsNew p.key ps × IsDistinct ps

-- Later calls leave what stands at an earlier address, and a key they do not name.
setup-before :
    (ps : List Property) (m : DictManager) (k : Str) (i : ℕ) (di : Option DictInfo)
    → IsNew k ps
    → m.index2dict k ≡ some i
    → get_elem? m.infos i ≡ some di
    → i < length m.infos
    → get_or m.dicts i false ≡ true
    → i < length m.dicts
    → (DictManager.index2dict (setup ps m) k ≡ some i)
      × (get_elem? (DictManager.infos (setup ps m)) i ≡ some di)
      × (get_or (DictManager.dicts (setup ps m)) i false ≡ true)
      × (i < length (DictManager.dicts (setup ps m)))
unfolding setup IsNew
setup-before [] m k i di n a b li c lc = (a, b, c, lc)
setup-before (p ∷ ps) m k i di (n, ns) a b li c lc = rw (set_property_lem p m) (
    setup-before ps (added p m) k i di ns (unfold added in rw n a)
      (unfold added in rw (get_elem?-front m.infos (some (entry (length m.dicts) p)) i li) b)
      (unfold added in omega (arith, length-append m.infos (some (entry (length m.dicts) p) ∷ [])))
      (unfold added in rw (get_or-front m.dicts true i false lc) c)
      (unfold added in omega (arith, length-append m.dicts (true ∷ []))))

added-length :
    (p : Property) (m : DictManager) → length (DictManager.infos (added p m)) ≡ length m.infos + 1
unfolding added
added-length p m = length-append m.infos (some (entry (length m.dicts) p) ∷ [])

added-lengths :
    (p : Property) (m : DictManager)
    → length m.infos ≡ length m.dicts
    → length (DictManager.infos (added p m)) ≡ length (DictManager.dicts (added p m))
added-lengths p m e =
    unfold added in
    added-length p m ∙ ap (λ (k : ℕ). k + 1) e ∙ sym (length-append m.dicts (true ∷ []))

-- What stands at the newest address in the end.
setup-newest :
    (p : Property) (ps : List Property) (m : DictManager)
    → length m.infos ≡ length m.dicts
    → IsNew p.key ps
    → (DictManager.index2dict (setup ps (added p m)) p.key ≡ some (length m.infos))
      × (get_elem? (DictManager.infos (setup ps (added p m))) (length m.infos)
          ≡ some (some (entry (length m.infos) p)))
      × (get_or (DictManager.dicts (setup ps (added p m))) (length m.infos) false ≡ true)
      × (length m.infos < length (DictManager.dicts (setup ps (added p m))))
setup-newest p ps m e n =
    let new : Option DictInfo = some (entry (length m.infos) p) in
    setup-before ps (added p m) p.key (length m.infos) new n
      (unfold added in rw (eq_str_self p.key))
      (unfold added in
        get_elem?-end m.infos (some (entry (length m.dicts) p))
        ∙ ap (λ k. some (some (entry k p))) (sym e))
      (omega (arith, added-length p m))
      (unfold added in
        ap (λ (i : ℕ). get_or (m.dicts ++ true ∷ []) i false) e ∙ get_or-end m.dicts true false)
      (omega (arith, e, added-length p m, added-lengths p m e))

-- After `set_dict_property` of properties with different keys the manager holds them, in their order.
pub setup-Holds :
    (ps : List Property) (m : DictManager)
    → length m.infos ≡ length m.dicts
    → IsDistinct ps
    → Holds (setup ps m) (length m.infos) ps
unfolding setup Holds IsDistinct
setup-Holds [] m e d = tt
setup-Holds (p ∷ ps) m e (n, d) =
    let (a, b, c, l) = setup-newest p ps m e n in
    let one : length m.infos + 1 ≡ suc (length m.infos) = omega arith in
    subst (λ r. Holds (setup ps r.1) (length m.infos) (p ∷ ps)) (sym (set_property_lem p m))
      (
        a,
        b,
        c,
        l,
        rw (added-length p m, one) at (setup-Holds ps (added p m) (added-lengths p m e) d),
      )

pub setup-dict_key :
    (ps : List Property) (m : DictManager)
    → DictManager.dict_key (setup ps m) ≡ m.dict_key ++ map Property.key ps
unfolding setup
setup-dict_key [] m = rw (append-nil m.dict_key)
setup-dict_key (p ∷ ps) m = rw (set_property_lem p m) (
    setup-dict_key ps (added p m)
    ∙ unfold added in append_assoc m.dict_key (p.key ∷ []) (map Property.key ps))

added-calls : (p : Property) (m : DictManager) → DictManager.calls (added p m) ≡ m.calls
unfolding added
added-calls p m = refl

pub setup-calls : (ps : List Property) (m : DictManager) → DictManager.calls (setup ps m) ≡ m.calls
unfolding setup
setup-calls [] m = refl
setup-calls (p ∷ ps) m = rw (set_property_lem p m) (setup-calls ps (added p m) ∙ added-calls p m)
