-- ===== src/Framework/DictManager/Laws.antt =====
-- framework/dict_manager.cpp: what `dict_process` does to a manager that holds given dictionaries.
use selib.Prelude.{
  ℕ, suc, ◌<◌, ◌≡◌, refl, ap, ◌∙◌, Bool, true, false, Option, none, some, List, [], ◌∷◌, ◌++◌,
  if◌then◌else◌, get_elem?, get_or, set, length, Str, arith, map, get_elem?-set_ne, get_or-set,
  length-set, ne→==, Bool-cases, inl, inr,
}
use mathlib.Core.List.{append-nil, append_assoc}
use selib.Framework.DictManager.{
  ProcType, load_proc, reload_proc, del_proc, object, DictInfo, Call, called_init, called_reload,
  called_delete, DictManager, call_dict, process, deref, release, process_info, process_key,
  dict_process,
}

-- The arguments of a `set_dict_property`.
pub record Property : Type 0 where
  pub key : Str
  pub file : Str
  pub with_reload : Bool
  pub valid : Bool
  pub par : Option ℕ

-- The entry of a property whose dictionary is at an address.
unfoldable pub entry : ℕ → Property → DictInfo
entry n p = record {
  path = p.file;
  with_reload = p.with_reload;
  dict_instance = object n;
  action = object (record { dict = some n; par = p.par });
  valid = p.valid;
}

-- The calls that a processing of the dictionary at an address makes.
pub calls_of : ProcType → ℕ → Property → List Call
calls_of load_proc n p = if p.valid then called_init n p.file p.par ∷ [] else []
calls_of reload_proc n p =
    if p.valid then (if p.with_reload then called_reload n ∷ [] else []) else []
calls_of del_proc n p = if p.valid then called_delete n ∷ [] else []

-- The calls on the dictionaries of some properties, in the order of the properties.
pub all_calls : ProcType → ℕ → List Property → List Call
all_calls t n [] = []
all_calls t n (p ∷ ps) = calls_of t n p ++ all_calls t (suc n) ps

-- The manager holds the properties, at the addresses from `n` on, and their dictionaries are alive.
unfoldable pub Holds : DictManager → ℕ → List Property → Type 0
Holds m n [] = Unit
Holds m n (p ∷ ps) =
    (m.index2dict p.key ≡ some n)
    × (get_elem? m.infos n ≡ some (some (entry n p)))
    × (get_or m.dicts n false ≡ true)
    × (n < length m.dicts)
    × Holds m (suc n) ps

-- What processing the dictionary at an address leaves.
after : ProcType → ℕ → Property → DictManager → DictManager
after load_proc n p m = record m { calls = m.calls ++ calls_of load_proc n p }
after reload_proc n p m = record m { calls = m.calls ++ calls_of reload_proc n p }
after del_proc n p m = record m {
  calls = m.calls ++ calls_of del_proc n p;
  dicts = if p.valid then set m.dicts n false else m.dicts;
  infos = if p.valid then set m.infos n none else m.infos;
}

process_info_lem :
    (t : ProcType) (n : ℕ) (p : Property) (m : DictManager)
    → p.valid ≡ true
    → get_or m.dicts n false ≡ true
    → process_info t n (entry n p) m ≡ some (after t n p m)
unfolding process_info entry after process call_dict deref release calls_of
process_info_lem load_proc n p m v d = ground (arith, v, d)
process_info_lem reload_proc n p m v d = ground (arith, v, d, append-nil m.calls)
process_info_lem del_proc n p m v d = ground (arith, v, d)

after_invalid :
    (t : ProcType) (n : ℕ) (p : Property) (m : DictManager) → p.valid ≡ false → after t n p m ≡ m
unfolding after calls_of
after_invalid load_proc n p m v = ground (arith, v, append-nil m.calls)
after_invalid reload_proc n p m v = ground (arith, v, append-nil m.calls)
after_invalid del_proc n p m v = ground (arith, v, append-nil m.calls)

entry_valid : (n : ℕ) (p : Property) → DictInfo.valid (entry n p) ≡ p.valid
unfolding entry
entry_valid n p = refl

process_key_lem :
    (t : ProcType) (n : ℕ) (p : Property) (m : DictManager)
    → m.index2dict p.key ≡ some n
    → get_elem? m.infos n ≡ some (some (entry n p))
    → get_or m.dicts n false ≡ true
    → process_key t p.key m ≡ some (after t n p m)
unfolding process_key
process_key_lem t n p m k i d = elim (Bool-cases p.valid) [
  | inl v ↦ ground (arith, k, i, v, entry_valid n p, process_info_lem t n p m v d)
  | inr v ↦ ground (arith, k, i, v, entry_valid n p, after_invalid t n p m v)
]

-- What processing all of the properties leaves.
pub after_all : ProcType → ℕ → List Property → DictManager → DictManager
after_all t n [] m = m
after_all t n (p ∷ ps) m = after_all t (suc n) ps (after t n p m)

-- The properties at later addresses are not touched.
Holds-after :
    (t : ProcType) (n : ℕ) (p : Property) (m : DictManager) (k : ℕ) (ps : List Property)
    → n < k
    → Holds m k ps
    → Holds (after t n p m) k ps
unfolding Holds after
Holds-after t n p m k [] l h = tt
Holds-after load_proc n p m k (q ∷ ps) l (a, b, c, d, h) =
    (a, b, c, d, Holds-after load_proc n p m (suc k) ps (omega arith) h)
Holds-after reload_proc n p m k (q ∷ ps) l (a, b, c, d, h) =
    (a, b, c, d, Holds-after reload_proc n p m (suc k) ps (omega arith) h)
Holds-after del_proc n p m k (q ∷ ps) l (a, b, c, d, h) = (
  a,
  ground (arith, b, get_elem?-set_ne m.infos {i = n} {j = k} none (λ e. omega arith)),
  ground (arith, c, get_or-set m.dicts n k false false, ne→== n k (λ e. omega arith)),
  ground (arith, d, length-set m.dicts n false),
  Holds-after del_proc n p m (suc k) ps (omega arith) h,
)

pub dict_process_lem :
    (t : ProcType) (n : ℕ) (ps : List Property) (m : DictManager)
    → Holds m n ps
    → dict_process t (map Property.key ps) m ≡ some (after_all t n ps m)
unfolding dict_process after_all Holds
dict_process_lem t n [] m h = refl
dict_process_lem t n (p ∷ ps) m (a, b, c, d, h) =
    rw (process_key_lem t n p m a b c) (
      dict_process_lem t (suc n) ps (after t n p m)
        (Holds-after t n p m (suc n) ps (omega arith) h))

after-calls :
    (t : ProcType) (n : ℕ) (p : Property) (m : DictManager)
    → DictManager.calls (after t n p m) ≡ m.calls ++ calls_of t n p
unfolding after
after-calls load_proc n p m = refl
after-calls reload_proc n p m = refl
after-calls del_proc n p m = refl

-- The calls are recorded in their order, whatever is processed.
pub after_all-calls :
    (t : ProcType) (n : ℕ) (ps : List Property) (m : DictManager)
    → DictManager.calls (after_all t n ps m) ≡ m.calls ++ all_calls t n ps
unfolding after_all all_calls
after_all-calls t n [] m = rw (append-nil m.calls)
after_all-calls t n (p ∷ ps) m =
    let one : DictManager.calls (after t n p m) ≡ m.calls ++ calls_of t n p = after-calls t n p m in
    after_all-calls t (suc n) ps (after t n p m)
    ∙ ap (λ c. c ++ all_calls t (suc n) ps) one
    ∙ append_assoc m.calls (calls_of t n p) (all_calls t (suc n) ps)

-- A processing that deletes nothing only makes calls.
pub after_all_load :
    (n : ℕ) (ps : List Property) (m : DictManager)
    → after_all load_proc n ps m ≡ record m { calls = m.calls ++ all_calls load_proc n ps }
unfolding after_all all_calls after
after_all_load n [] m = rw (append-nil m.calls)
after_all_load n (p ∷ ps) m =
    rw (← append_assoc m.calls (calls_of load_proc n p) (all_calls load_proc (suc n) ps))
      (after_all_load (suc n) ps (record m { calls = m.calls ++ calls_of load_proc n p }))

pub after_all_reload :
    (n : ℕ) (ps : List Property) (m : DictManager)
    → after_all reload_proc n ps m ≡ record m { calls = m.calls ++ all_calls reload_proc n ps }
unfolding after_all all_calls after
after_all_reload n [] m = rw (append-nil m.calls)
after_all_reload n (p ∷ ps) m =
    rw (← append_assoc m.calls (calls_of reload_proc n p) (all_calls reload_proc (suc n) ps))
      (after_all_reload (suc n) ps (record m { calls = m.calls ++ calls_of reload_proc n p }))
