-- ===== src/Container/ResourceStack/Holders.antt =====
-- container/resource_stack.h: which holders stand where, and what they hold.
use selib.Prelude.{
  ℕ, zero, suc, ◌<◌, ◌≤◌, ◌≡◌, ◌≢◌, refl, sym, ◌∙◌, Option, none, some, List, [], ◌∷◌, ◌++◌, get_or,
  set, length, arith, get_or-set, ne→==,
}

-- A number that is not in a list.
unfoldable pub IsNew : ℕ → List ℕ → Type 0
IsNew n [] = Unit
IsNew n (a ∷ hs) = (a ≢ n) × IsNew n hs

-- Numbers below a bound, no two of them the same.
unfoldable pub IsDistinct : ℕ → List ℕ → Type 0
IsDistinct top [] = Unit
IsDistinct top (a ∷ hs) = (a < top) × IsNew a hs × IsDistinct top hs

-- Nothing of the first list is in the second.
unfoldable pub IsApart : List ℕ → List ℕ → Type 0
IsApart [] es = Unit
IsApart (a ∷ hs) es = IsNew a es × IsApart hs es

-- The holders hold the resources.
unfoldable pub Holding : List (Option ℕ) → List ℕ → List ℕ → Type 0
Holding held [] [] = Unit
Holding held [] (x ∷ xs) = ⊥
Holding held (a ∷ hs) [] = ⊥
Holding held (a ∷ hs) (x ∷ xs) = (get_or held a none ≡ some x) × Holding held hs xs

pub Holding-set :
    (held : List (Option ℕ)) (h : ℕ) (v : Option ℕ) (hs xs : List ℕ)
    → h < length held
    → IsNew h hs
    → Holding held hs xs
    → Holding (set held h v) hs xs
unfolding Holding IsNew
Holding-set held h v [] [] l n k = tt
Holding-set held h v [] (x ∷ xs) l n k = elim k [ ]
Holding-set held h v (a ∷ hs) [] l n k = elim k [ ]
Holding-set held h v (a ∷ hs) (x ∷ xs) l (d, n) (k, ks) = (
  ground (arith, get_or-set held h a v none l, ne→== h a (λ e. d (sym e)), k),
  Holding-set held h v hs xs l n ks,
)

get_or-front :
    (l : List (Option ℕ)) (y : Option ℕ) (i : ℕ)
    → i < length l
    → get_or (l ++ y ∷ []) i none ≡ get_or l i none
get_or-front [] y i h = absurd (omega arith)
get_or-front (z ∷ l) y zero h = refl
get_or-front (z ∷ l) y (suc i) h = get_or-front l y i (omega arith)

pub Holding-append :
    (held : List (Option ℕ)) (v : Option ℕ) (hs xs : List ℕ)
    → IsDistinct (length held) hs
    → Holding held hs xs
    → Holding (held ++ v ∷ []) hs xs
unfolding Holding IsDistinct
Holding-append held v [] [] d k = tt
Holding-append held v [] (x ∷ xs) d k = elim k [ ]
Holding-append held v (a ∷ hs) [] d k = elim k [ ]
Holding-append held v (a ∷ hs) (x ∷ xs) (l, n, d) (k, ks) =
    (get_or-front held v a l ∙ k, Holding-append held v hs xs d ks)

pub IsDistinct-mono :
    (top high : ℕ) (hs : List ℕ) → top ≤ high → IsDistinct top hs → IsDistinct high hs
unfolding IsDistinct
IsDistinct-mono top high [] h d = tt
IsDistinct-mono top high (a ∷ hs) h (l, n, d) = (omega arith, n, IsDistinct-mono top high hs h d)

pub IsDistinct-IsNew : (top : ℕ) (hs : List ℕ) → IsDistinct top hs → IsNew top hs
unfolding IsDistinct IsNew
IsDistinct-IsNew top [] d = tt
IsDistinct-IsNew top (a ∷ hs) (l, n, d) = (λ e. omega arith, IsDistinct-IsNew top hs d)

-- The first of the second list goes over to the first list, and back.
pub IsApart-head :
    (hs : List ℕ) (e : ℕ) (es : List ℕ) → IsApart hs (e ∷ es) → IsNew e hs × IsApart hs es
unfolding IsApart IsNew
IsApart-head [] e es h = (tt, tt)
IsApart-head (a ∷ hs) e es ((d, n), h) =
    let (m, k) = IsApart-head hs e es h in ((λ q. d (sym q), m), (n, k))

pub IsApart-cons :
    (hs : List ℕ) (e : ℕ) (es : List ℕ) → IsNew e hs → IsApart hs es → IsApart hs (e ∷ es)
unfolding IsApart IsNew
IsApart-cons [] e es n h = tt
IsApart-cons (a ∷ hs) e es (d, n) (m, h) = ((λ q. d (sym q), m), IsApart-cons hs e es n h)
