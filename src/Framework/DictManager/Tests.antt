-- ===== src/Framework/DictManager/Tests.antt =====
-- Runs of framework/dict_manager.h and framework/dict_manager.cpp, and the theorems at concrete inputs.
use selib.Prelude.{◌≡◌, refl, true, false, none, some, List, [], ◌∷◌, ◌++◌}
use selib.Framework.DictManager.{
  DictManager, fresh, load_proc, del_proc, load, reload, destroy, set_dict_property,
  get_dict_handle, init_dict_property, attach, set_info, dict_process, process_key, process_info,
  process, deref, release, call_dict,
}
use selib.Framework.DictManager.Laws.{Property, all_calls}
use selib.Framework.DictManager.Setup.{setup, setup_with, set_property, IsDistinct, IsNew}
use selib.Framework.DictManager.Lifecycle.{lifecycle, reload_calls, lifecycle_lem, handle_lem}

abbrev words : Property
words = record {
  key = 119 ∷ [];
  file = 47 ∷ 119 ∷ [];
  with_reload = true;
  valid = true;
  par = none;
}

abbrev names : Property
names = record {
  key = 110 ∷ [];
  file = 47 ∷ 110 ∷ [];
  with_reload = false;
  valid = true;
  par = some 5;
}

abbrev unused : Property
unused = record {
  key = 117 ∷ [];
  file = 47 ∷ 117 ∷ [];
  with_reload = true;
  valid = false;
  par = none;
}

abbrev properties : List Property
properties = words ∷ names ∷ unused ∷ []

properties-IsDistinct : IsDistinct properties
unfolding IsDistinct IsNew
properties-IsDistinct = ((refl, (refl, tt)), ((refl, tt), (tt, tt)))

lifecycle_lem_example :
    (m : DictManager) × (lifecycle 2 (setup_with (λ i. true) 0 properties fresh) ≡ some m)
    × (m.calls
        ≡ all_calls load_proc 0 properties
          ++ reload_calls 2 properties
          ++ all_calls del_proc 0 properties)
lifecycle_lem_example = lifecycle_lem (λ i. true) 2 properties (λ i. refl) properties-IsDistinct

handle_lem_example :
    get_dict_handle (110 ∷ []) (setup_with (λ i. true) 0 properties fresh) ≡ some (some 1)
handle_lem_example =
    handle_lem (λ i. true) properties 1 names (λ i. refl) properties-IsDistinct refl

-- A key given twice: the entry of the second call is deleted at the first key, and used at the second.
twice : lifecycle 0 (setup (words ∷ words ∷ []) fresh) ≡ none
unfolding lifecycle setup set_property set_dict_property init_dict_property attach set_info fresh
    load destroy dict_process process_key process_info process deref release call_dict
twice = refl

-- Where the dictionary cannot be allocated, `load` uses an action that is not set.
no_dict :
    load (set_dict_property true false true (119 ∷ []) (47 ∷ []) true true none fresh).1 ≡ none
unfolding set_dict_property init_dict_property attach set_info fresh load dict_process process_key
    process_info deref
no_dict = refl

-- `reload` before `load` is refused.
too_early : reload fresh ≡ some (false, fresh)
unfolding reload fresh
too_early = refl
