-- ===== src/Container/LruCache/Runs.antt =====
-- container/circle_cache.h: any calls of `put` and `get` on a cache from `init`.
use selib.Prelude.{
  ℕ, ◌^◌, ◌<◌, ◌≤◌, ◌≡◌, ◌≢◌, refl, ◌∙◌, Bool, true, Option, some, List, [], ◌∷◌, ◌>>=◌, arith,
  length, length-append, Str,
}
use selib.Container.LruCache.{LruCache, init, put, get}
use selib.Container.LruCache.Valid.{IsCache}
use selib.Container.LruCache.Entries.{entries, length-entries}
use selib.Container.LruCache.Answers.{PutCall, GetCall, put_call_lem, get_call_lem}
use selib.Container.LruCache.Init.{init-IsCache}

module _ {ℓ} where
  pub data Call (V : Type ℓ) : Type ℓ where
    put_call : ℕ → Option V → Str → Bool → Call V
    get_call : ℕ → Str → Call V

  pub data Answer (V : Type ℓ) : Type ℓ where
    done : Bool → Answer V
    found : Option V → Answer V

module _ {ℓ} {V : Type ℓ} where
  abbrev key_of : Call V → ℕ
  key_of (put_call k v raw overwrite) = k
  key_of (get_call k raw) = k

  -- No key is 0.
  abbrev pub HasKeys : List (Call V) → Type 0
  HasKeys [] = Unit
  HasKeys (x ∷ l) = (key_of x ≢ 0) × HasKeys l

  unfoldable pub run : List (Call V) → LruCache V → Option (List (Answer V) × LruCache V)
  run [] c = some ([], c)
  run (put_call k v raw overwrite ∷ l) c = do
    (b, c1) ← put c k v raw overwrite
    (answers, c2) ← run l c1
    some (done b ∷ answers, c2)
  run (get_call k raw ∷ l) c = do
    (v, c1) ← get c k raw
    (answers, c2) ← run l c1
    some (found v ∷ answers, c2)

  -- The same calls, each on a well-formed cache, by what it does to the cache and its entries and what it answers.
  pub data Run
      : List (Call V) → LruCache V → List ℕ → List (Answer V) → LruCache V → List ℕ → Type ℓ where
    stop : {c : LruCache V} {frees used : List ℕ} → IsCache c frees used → Run [] c used [] c used
    put_first :
        {k : ℕ} {v : Option V} {raw : Str} {overwrite b : Bool} {l : List (Call V)}
        {answers : List (Answer V)} {c c1 c2 : LruCache V} {frees used used1 used2 : List ℕ}
        → IsCache c frees used
        → PutCall c used k raw v overwrite b c1 used1
        → Run l c1 used1 answers c2 used2
        → Run (put_call k v raw overwrite ∷ l) c used (done b ∷ answers) c2 used2
    get_first :
        {k : ℕ} {v : Option V} {raw : Str} {l : List (Call V)} {answers : List (Answer V)}
        {c c1 c2 : LruCache V} {frees used used1 used2 : List ℕ}
        → IsCache c frees used
        → GetCall c used k raw v c1 used1
        → Run l c1 used1 answers c2 used2
        → Run (get_call k raw ∷ l) c used (found v ∷ answers) c2 used2

  run_lem :
      (l : List (Call V)) (c : LruCache V) (frees used : List ℕ)
      → IsCache c frees used
      → HasKeys l
      → (answers : List (Answer V)) × (c' : LruCache V) × (frees' : List ℕ) × (used' : List ℕ)
        × (run l c ≡ some (answers, c'))
        × IsCache c' frees' used'
        × (c'.capacity ≡ c.capacity)
        × Run l c used answers c' used'
  unfolding run
  run_lem [] c frees used ok keys = ([], c, frees, used, refl, ok, refl, stop ok)
  run_lem (put_call k v raw overwrite ∷ l) c frees used ok (nk, keys) =
      let (b, c1, frees1, used1, e1, ok1, fr, s1) = put_call_lem c ok k raw nk v overwrite in
      let (answers, c2, frees2, used2, e2, ok2, same, s2) = run_lem l c1 frees1 used1 ok1 keys in
      (
        done b ∷ answers,
        c2,
        frees2,
        used2,
        rw (e1, e2) refl,
        ok2,
        same ∙ fr.same_capacity,
        put_first ok s1 s2,
      )
  run_lem (get_call k raw ∷ l) c frees used ok (nk, keys) =
      let (v, c1, used1, e1, ok1, fr, s1) = get_call_lem c ok k raw nk in
      let (answers, c2, frees2, used2, e2, ok2, same, s2) = run_lem l c1 frees used1 ok1 keys in
      (
        found v ∷ answers,
        c2,
        frees2,
        used2,
        rw (e1, e2) refl,
        ok2,
        same ∙ fr.same_capacity,
        get_first ok s1 s2,
      )

  -- A cache that `init` makes for 2 to 2 ^ 30 - 1 slots, both allocations done, answers any calls of `put` and
  -- `get` with keys other than 0: no access is out of an array, the cache is well-formed before and after each
  -- call, and by the cache that the call meets:
  -- `get` answers null where none of the buckets that it probes has both keys, and else the value of
  -- the first one that has, whose entry becomes the most recently used one, and no bucket changes; `put` is refused exactly where
  -- none of the buckets that it probes is empty or, if it overwrites, has both keys, and changes nothing
  -- then; else the first of these buckets has the new entry, which is the most recently used one, in place of
  -- the one that the bucket had, or if it was empty added where two slots are free, else in place of the least
  -- recently used entry; every other bucket is as before or was emptied. At first no slot is in use, and at
  -- the end there are fewer entries than slots.
  pub cache_refines :
      (capacity max_probing : ℕ) (l : List (Call V))
      → 2 ≤ capacity
      → capacity < 2 ^ 30
      → HasKeys l
      → (c : LruCache V) × (answers : List (Answer V)) × (c' : LruCache V) × (frees : List ℕ)
        × (used : List ℕ) × (init true true capacity max_probing ≡ some (some c))
        × (run l c ≡ some (answers, c'))
        × IsCache c' frees used
        × Run l c [] answers c' used
        × (length (entries c' used) < capacity)
  cache_refines capacity max_probing l two small keys =
      let (c, e, ok, same, _, _) = init-IsCache capacity max_probing two small in
      let (answers, c', frees, used, r, ok', same', s) = run_lem l c _ [] ok keys in
      (
        c,
        answers,
        c',
        frees,
        used,
        e,
        r,
        ok',
        s,
        omega
            (arith, length-entries c' used, ok'.shape.whole, length-append frees used, same', same),
      )
