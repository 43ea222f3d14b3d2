-- ===== src/Framework/DictManager.antt =====
-- framework/dict_manager.h and framework/dict_manager.cpp: `DictManager`. The `dict_info_t` objects and the
-- dictionaries that it allocates have the positions of their allocation as addresses. `calls` records the
-- calls of the virtual `init`, of `reload` and of the destructor of the dictionaries, the latest last. A
-- `none` outside is a fault: a null, unset or deleted object is used.
pub mod Laws
pub mod Setup
pub mod Lifecycle
mod Tests
use selib.Prelude.{
  ℕ, Bool, true, false, Option, none, some, List, [], ◌∷◌, ◌++◌, if◌then◌else◌, ◌>>=◌, get_elem?,
  get_or, set, length, Str, eq_str,
}
use mathlib.Core.Option
use selib.Util.Path.{path_join}

-- `proc_type`
pub data ProcType : Type 0 where
  load_proc : ProcType
  reload_proc : ProcType
  del_proc : ProcType

-- A pointer member: not yet assigned, null, or to an object.
module _ {ℓ} where
  pub data Pointer (A : Type ℓ) : Type ℓ where
    unset : Pointer A
    null : Pointer A
    object : A → Pointer A

-- `ActionInstance`: `_dict`, and `_par` where `_has_par`. The methods it stores are those of the type.
pub record ActionInstance : Type 0 where
  pub dict : Option ℕ
  pub par : Option ℕ

-- `dict_info_t`
pub record DictInfo : Type 0 where
  pub path : Str
  pub with_reload : Bool
  pub dict_instance : Pointer ℕ
  pub action : Pointer ActionInstance
  pub valid : Bool

-- A call of a method of the dictionary at an address.
pub data Call : Type 0 where
  called_init : ℕ → Str → Option ℕ → Call
  called_reload : ℕ → Call
  called_delete : ℕ → Call

-- `DictManager`. In the heaps a deleted object is `none` or `false`.
pub record DictManager : Type 0 where
  pub infos : List (Option DictInfo)
  pub dicts : List Bool
  pub calls : List Call
  pub index2dict : Str → Option ℕ
  pub dict_key : List Str
  pub loaded : Bool

-- The constructor, on empty heaps.
pub fresh : DictManager
fresh = record {
  infos = [];
  dicts = [];
  calls = [];
  index2dict = λ key. none;
  dict_key = [];
  loaded = false;
}

-- A call of a method of a live dictionary.
pub call_dict : DictManager → ℕ → Call → Option DictManager
call_dict m d c =
    if get_or m.dicts d false then some (record m { calls = m.calls ++ c ∷ [] }) else none

-- `ActionInstance::process`, with `-1` as `false`.
pub process : ProcType → DictManager → DictInfo → ActionInstance → Option (Bool × DictManager)
unfolding call_dict
process load_proc m di a = elim a.dict [
  | none ↦ some (false, m)
  | some d ↦ Option.map (λ m'. (true, m')) (call_dict m d (called_init d di.path a.par))
]
process reload_proc m di a =
    if di.with_reload
    then elim a.dict [
      | none ↦ none
      | some d ↦ Option.map (λ m'. (true, m')) (call_dict m d (called_reload d))
    ]
    else some (true, m)
process del_proc m di a = elim a.dict [
  | none ↦ some (true, m)
  | some d ↦
      Option.map (λ m'. (true, record m' { dicts = set m'.dicts d false }))
        (call_dict m d (called_delete d))
]

-- `*p` for a member that is to point to an object.
pub deref {ℓ} : {A : Type ℓ} → Pointer A → Option A
deref unset = none
deref null = none
deref (object a) = some a

-- `delete di->_action; delete di;` where the action is DEL.
pub release : ProcType → ℕ → DictManager → DictManager
release load_proc i m = m
release reload_proc i m = m
release del_proc i m = record m { infos = set m.infos i none }

-- `di->_action->process(action, *di)` and what follows it; the result of `process` is dropped.
pub process_info : ProcType → ℕ → DictInfo → DictManager → Option DictManager
unfolding process deref release
process_info p i di m = do a ← deref di.action; r ← process p m di a; some (release p i r.1)

-- One round of the loop of `dict_process`.
pub process_key : ProcType → Str → DictManager → Option DictManager
unfolding process_info
process_key p key m = elim (m.index2dict key) [
  | none ↦ some m
  | some i ↦ do
    live ← get_elem? m.infos i
    di ← live
    if di.valid then process_info p i di m else some m
]

-- The loop of `dict_process`, over the keys left.
pub dict_process : ProcType → List Str → DictManager → Option DictManager
dict_process p [] m = some m
dict_process p (key ∷ keys) m = do m' ← process_key p key m; dict_process p keys m'

-- `load`; `dict_process` always returns 0.
pub load : DictManager → Option (Bool × DictManager)
load m =
    Option.map (λ m'. (true, record m' { loaded = true })) (dict_process load_proc m.dict_key m)

-- `reload`, with `-1` as `false`.
pub reload : DictManager → Option (Bool × DictManager)
reload m =
    if m.loaded
    then Option.map (λ m'. (true, m')) (dict_process reload_proc m.dict_key m)
    else some (false, m)

-- `destroy`
pub destroy : DictManager → Option DictManager
destroy m =
    Option.map (λ (m' : DictManager). record m' { loaded = false })
      (if m.loaded then dict_process del_proc m.dict_key m else some m)

-- `init_dict_property`: `none` is a null pointer, where `new` fails. `_dict_instance` and `_action` are not
-- set.
pub init_dict_property : Bool → Str → Str → Bool → Bool → DictManager → Option (ℕ × DictManager)
init_dict_property alloc key path with_reload valid m =
    let di : DictInfo = record {
      path = path;
      with_reload = with_reload;
      dict_instance = unset;
      action = unset;
      valid = valid;
    } in
    if alloc
    then some (
      length m.infos,
      record m {
        infos = m.infos ++ some di ∷ [];
        index2dict = λ q. if eq_str key q then some (length m.infos) else m.index2dict q;
        dict_key = m.dict_key ++ key ∷ [];
      },
    )
    else none

-- A write to the object at an address.
pub set_info : ℕ → (DictInfo → DictInfo) → DictManager → DictManager
set_info i f m = record m { infos = set m.infos i (Option.map f (get_or m.infos i none)) }

-- The second half of `set_dict_property`: the dictionary and its action, into the entry at an address.
pub attach : Bool → Bool → Option ℕ → ℕ → DictManager → Bool × DictManager
unfolding set_info
attach alloc_dict alloc_action par i m =
    let d : ℕ = length m.dicts in
    if alloc_dict
    then (let a : ActionInstance = record { dict = some d; par = par } in
        let made : DictManager =
          set_info i (λ di. record di { dict_instance = object d })
            (record m { dicts = m.dicts ++ true ∷ [] }) in
        if alloc_action
        then (true, set_info i (λ di. record di { action = object a }) made)
        else (false, set_info i (λ di. record di { action = null }) made))
    else (false, set_info i (λ di. record di { dict_instance = null }) m)

-- `set_dict_property`; the Booleans say which of its three allocations succeed.
pub set_dict_property :
    Bool → Bool → Bool → Str → Str → Bool → Bool → Option ℕ → DictManager → Bool × DictManager
unfolding init_dict_property attach
set_dict_property alloc_info alloc_dict alloc_action key file with_reload valid par m =
    elim (init_dict_property alloc_info key file with_reload valid m) [
      | none ↦ (false, m)
      | some (i, m') ↦ attach alloc_dict alloc_action par i m'
    ]

-- `set_dict_property` of a path and a name.
pub set_dict_property_in :
    Bool
    → Bool
    → Bool
    → Str
    → Str
    → Str
    → Bool
    → Bool
    → Option ℕ
    → DictManager
    → Option (Bool × DictManager)
unfolding set_dict_property
set_dict_property_in a b c key path name with_reload valid par m =
    Option.map (λ file. set_dict_property a b c key file with_reload valid par m)
      (path_join (some path) (some name))

-- `get_dict_handle`: inside, `none` is a null pointer.
pub get_dict_handle : Str → DictManager → Option (Option ℕ)
get_dict_handle key m = elim (m.index2dict key) [
  | none ↦ some none
  | some i ↦ elim (get_or m.infos i none) [
    | none ↦ none
    | some di ↦ elim di.dict_instance [ unset ↦ none | null ↦ some none | object d ↦ some (some d) ]
  ]
]
