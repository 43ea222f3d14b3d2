-- ===== src/Prelude/Strings.antt =====
-- Strings as lists of character codes, with the comparison of `std::string`.
use selib.Prelude.Tests.{◌==◌, and_parts, ==_iff}
use Prim.Native.Nat.{ℕ}
use mathlib.Core.Path.{◌≡◌, refl, ap, ◌∙◌}
use mathlib.Core.Bool.{Bool, true, false, ◌&&◌}
use mathlib.Core.List.{List, [], ◌∷◌}
use native.Mathlib.Omega.{arith}

abbrev pub Str : Type 0
Str = List ℕ

abbrev pub eq_str : Str → Str → Bool
eq_str [] [] = true
eq_str [] (d ∷ t) = false
eq_str (c ∷ s) [] = false
eq_str (c ∷ s) (d ∷ t) = (c == d) && eq_str s t

pub eq_str_self : (s : Str) → eq_str s s ≡ true
eq_str_self [] = refl
eq_str_self (c ∷ s) = ground (arith, eq_str_self s)

pub eq_str-eq : (s t : Str) → eq_str s t ≡ true → s ≡ t
eq_str-eq [] [] h = refl
eq_str-eq [] (d ∷ t) h = cc
eq_str-eq (c ∷ s) [] h = cc
eq_str-eq (c ∷ s) (d ∷ t) h =
    let (a, b) = and_parts (c == d) (eq_str s t) h in
    ap (◌∷◌ c) (eq_str-eq s t b) ∙ ap (λ x. x ∷ t) ((==_iff c d).0 a)
