-- ===== src/Framework/DictManager/Lifecycle.antt =====
-- framework/dict_manager.h and framework/dict_manager.cpp: the life of a manager, from the
-- `set_dict_property` calls over `load` and any number of `reload` to the destructor.
use selib.Prelude.{
  ℕ, zero, suc, ◌+◌, ◌≡◌, refl, ap, ◌∙◌, Bool, true, false, Option, none, some, List, [], ◌∷◌, ◌++◌,
  if◌then◌else◌, ◌>>=◌, get_elem?, get_or, arith, map,
}
use mathlib.Core.Option
use mathlib.Core.Path.{subst}
use mathlib.Core.List.{append-nil, append_assoc}
use selib.Framework.DictManager.{
  ProcType, load_proc, reload_proc, del_proc, Call, DictInfo, DictManager, fresh, dict_process,
  load, reload, destroy, get_dict_handle,
}
use selib.Framework.DictManager.Laws.{
  Property, entry, Holds, all_calls, after_all, after_all_load, after_all_reload, after_all-calls,
  dict_process_lem,
}
use selib.Framework.DictManager.Setup.{
  setup, setup_with, setup_with-all, IsDistinct, setup-Holds, setup-dict_key, setup-calls,
}

-- `reload`, some times.
pub reloads : ℕ → DictManager → Option DictManager
reloads zero m = some m
reloads (suc k) m = do r ← reload m; reloads k r.1

-- `load`, some times `reload`, and the destructor.
unfoldable pub lifecycle : ℕ → DictManager → Option DictManager
unfolding reloads
lifecycle k m = do r ← load m; m' ← reloads k r.1; destroy m'

-- The calls of some reloads.
pub reload_calls : ℕ → List Property → List Call
reload_calls zero ps = []
reload_calls (suc k) ps = all_calls reload_proc 0 ps ++ reload_calls k ps

-- What is held does not depend on the calls made and on whether the manager is loaded.
Holds-calls :
    (m : DictManager) (l : List Call) (b : Bool) (n : ℕ) (ps : List Property)
    → Holds m n ps
    → Holds (record m { calls = l; loaded = b }) n ps
unfolding Holds
Holds-calls m l b n [] h = tt
Holds-calls m l b n (p ∷ ps) (a, c, d, e, h) = (a, c, d, e, Holds-calls m l b (suc n) ps h)

-- Between `load` and the destructor: the manager holds the properties, under their keys.
IsLoaded : List Property → DictManager → Type 0
IsLoaded ps m = Holds m 0 ps × (m.dict_key ≡ map Property.key ps) × (m.loaded ≡ true)

processed :
    (t : ProcType) (ps : List Property) (m : DictManager)
    → Holds m 0 ps
    → m.dict_key ≡ map Property.key ps
    → dict_process t m.dict_key m ≡ some (after_all t 0 ps m)
processed t ps m h q = ap (λ keys. dict_process t keys m) q ∙ dict_process_lem t 0 ps m h

load_lem :
    (ps : List Property) (m : DictManager)
    → Holds m 0 ps
    → m.dict_key ≡ map Property.key ps
    → load m ≡ some (true, record m { calls = m.calls ++ all_calls load_proc 0 ps; loaded = true })
unfolding load
load_lem ps m h q = rw (processed load_proc ps m h q, after_all_load 0 ps m)

reload_lem :
    (ps : List Property) (m : DictManager)
    → Holds m 0 ps
    → m.dict_key ≡ map Property.key ps
    → m.loaded ≡ true
    → reload m ≡ some (true, record m { calls = m.calls ++ all_calls reload_proc 0 ps })
unfolding reload
reload_lem ps m h q l =
    rw (processed reload_proc ps m h q, after_all_reload 0 ps m)
      (ap
        (λ b.
          if b
          then some (true, record m { calls = m.calls ++ all_calls reload_proc 0 ps })
          else some (false, m))
        l)

destroy_lem :
    (ps : List Property) (m : DictManager)
    → IsLoaded ps m
    → (m' : DictManager) × (destroy m ≡ some m') × (m'.calls ≡ m.calls ++ all_calls del_proc 0 ps)
unfolding destroy IsLoaded
destroy_lem ps m (h, q, l) = (
  record (after_all del_proc 0 ps m) { loaded = false },
  rw (processed del_proc ps m h q) (
      ap
        (λ b.
          Option.map (λ (m' : DictManager). record m' { loaded = false })
            (if b then some (after_all del_proc 0 ps m) else some m))
        l),
  after_all-calls del_proc 0 ps m,
)

reloads_lem :
    (k : ℕ) (ps : List Property) (m : DictManager)
    → IsLoaded ps m
    → (m' : DictManager) × (reloads k m ≡ some m')
      × IsLoaded ps m'
      × (m'.calls ≡ m.calls ++ reload_calls k ps)
unfolding reloads IsLoaded reload_calls
reloads_lem zero ps m h = (m, refl, h, rw (append-nil m.calls))
reloads_lem (suc k) ps m (h, q, l) =
    let c : List Call = all_calls reload_proc 0 ps in
    let next : DictManager = record m { calls = m.calls ++ c } in
    let (m', e, i, f) =
      reloads_lem k ps next (Holds-calls m (m.calls ++ c) m.loaded 0 ps h, q, l) in
    (m', rw (reload_lem ps m h q l) e, i, f ∙ append_assoc m.calls c (reload_calls k ps))

-- After calls of `set_dict_property` on a new manager whose allocations all succeed, for properties with different
-- keys, `load`, `reload` any number of times and the destructor run without a fault. They call the `init` of each valid dictionary once
-- with its file and its parameter, then at each reload the `reload` of each valid dictionary that is to
-- be reloaded, and in the end delete each valid dictionary once, always in the order of the properties.
pub lifecycle_lem :
    (alloc : ℕ → Bool) (k : ℕ) (ps : List Property)
    → ((i : ℕ) → alloc i ≡ true)
    → IsDistinct ps
    → (m : DictManager) × (lifecycle k (setup_with alloc 0 ps fresh) ≡ some m)
      × (m.calls ≡ all_calls load_proc 0 ps ++ reload_calls k ps ++ all_calls del_proc 0 ps)
unfolding lifecycle
lifecycle_lem alloc k ps ok d =
    let m : DictManager = setup ps fresh in
    let c : List Call = all_calls load_proc 0 ps in
    let r : List Call = reload_calls k ps in
    let h : Holds m 0 ps = unfold fresh in setup-Holds ps fresh refl d in
    let q : m.dict_key ≡ map Property.key ps = unfold fresh in setup-dict_key ps fresh in
    let none_yet : m.calls ≡ [] = unfold fresh in setup-calls ps fresh in
    let (m1, e1, l1, c1) =
      reloads_lem k ps (record m { calls = m.calls ++ c; loaded = true })
        (unfold IsLoaded in (Holds-calls m (m.calls ++ c) true 0 ps h, q, refl)) in
    let (m2, e2, c2) = destroy_lem ps m1 l1 in
    (
      m2,
      rw (setup_with-all alloc 0 ps fresh ok, load_lem ps m h q, e1) e2,
      c2 ∙ ap (λ l. l ++ all_calls del_proc 0 ps) (c1 ∙ ap (λ l. l ++ c ++ r) none_yet),
    )

get_or_of-get_elem? :
    (l : List (Option DictInfo)) (i : ℕ) (x : Option DictInfo)
    → get_elem? l i ≡ some x
    → get_or l i none ≡ x
get_or_of-get_elem? [] i x h = cc
get_or_of-get_elem? (y ∷ l) zero x h = cc
get_or_of-get_elem? (y ∷ l) (suc i) x h = get_or_of-get_elem? l i x h

handle_at :
    (i : ℕ) (m : DictManager) (n : ℕ) (ps : List Property) (p : Property)
    → Holds m n ps
    → get_elem? ps i ≡ some p
    → get_dict_handle p.key m ≡ some (some (n + i))
unfolding Holds
handle_at i m n [] p h e = cc
handle_at zero m n (q ∷ ps) p (a, b, c, d, h) e =
    let same : q ≡ p = cc in
    subst (λ x. get_dict_handle (Property.key x) m ≡ some (some (n + 0))) same
      (unfold get_dict_handle entry in
        ground (arith, a, get_or_of-get_elem? m.infos n (some (entry n q)) b))
handle_at (suc i) m n (q ∷ ps) p (a, b, c, d, h) e =
    handle_at i m (suc n) ps p h e ∙ ap (λ (k : ℕ). some (some k)) (omega arith)

-- After calls of `set_dict_property` on a new manager whose allocations all succeed, for properties with different
-- keys, `get_dict_handle` of a key gives the dictionary of its property: the one at the position of the property.
pub handle_lem :
    (alloc : ℕ → Bool) (ps : List Property) (i : ℕ) (p : Property)
    → ((i : ℕ) → alloc i ≡ true)
    → IsDistinct ps
    → get_elem? ps i ≡ some p
    → get_dict_handle p.key (setup_with alloc 0 ps fresh) ≡ some (some i)
handle_lem alloc ps i p ok d e =
    ap (get_dict_handle p.key) (setup_with-all alloc 0 ps fresh ok)
    ∙ handle_at i (setup ps fresh) 0 ps p (unfold fresh in setup-Holds ps fresh refl d) e
    ∙ ap (λ (k : ℕ). some (some k)) (omega arith)
