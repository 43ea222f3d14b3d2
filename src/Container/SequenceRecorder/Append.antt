-- ===== src/Container/SequenceRecorder/Append.antt =====
-- `append` of container/sequence_recorder.h: the invariant that ties the circle buffer to the values
-- that it holds, and that `append` keeps it and drops the oldest value of a full buffer.
use selib.Prelude.{
  ℕ, suc, ◌+◌, ◌-◌, ◌%◌, ◌^◌, ◌≤◌, ◌<◌, ◌≡◌, refl, sym, ap, ◌∙◌, inl, inr, true, false, some, List,
  [], ◌∷◌, ◌++◌, arith, ltb, ◌==◌, Bool-cases, if◌then◌else◌, set, length, last, last-all, drop,
  ne→==, eq→==, eq-nil_of_length, dec_lt, length-append, length-set, get_elem?-set_self,
}
use Prim.Native.Nat.{min}
use native.Mathlib.Nat.{add-mod_right, mod-lt, mod-add-mod, mod-eq_of_lt, add-zero}
use selib.Container.SequenceRecorder.{SequenceRecorder, int_max, append, init, read}
use selib.Container.SequenceRecorder.Read.{
  add-mod-ne, mod_ne, read-cons, read-uncons, read-mod, read-set_out, read-snoc,
}

module _ {ℓ} {A : Type ℓ} (cap : ℕ) where
  -- The recorder holds `xs`, the oldest first. Half the range of `int` is the bound on `LEN` at which
  -- the loops' index `j` cannot overflow.
  pub record Holds (r : SequenceRecorder A) (xs : List A) : Type ℓ where
    pub pos : 0 < cap
    pub small : cap ≤ 2 ^ 30
    pub size : length r.buf ≡ cap
    pub beg_in : r.beg < cap
    pub cur_in : r.cur < cap
    pub len_in : r.len ≤ int_max
    pub seen : read cap r.buf r.beg (length xs) ≡ some xs
    pub counted : length xs ≡ min cap r.len
    pub begun : r.started ≡ ltb 0 r.len
    pub at_end : 0 < r.len → r.cur ≡ (r.beg + (length xs - 1)) % cap
    pub at_start : r.len ≡ 0 → r.beg ≡ r.cur

  -- The constructor holds nothing.
  pub init-Holds :
      (memory : List A) → 0 < cap → cap ≤ 2 ^ 30 → length memory ≡ cap → Holds (init memory) []
  unfolding init read
  init-Holds memory pos small size = record {
    pos = pos;
    small = small;
    size = size;
    beg_in = pos;
    cur_in = pos;
    len_in = omega arith;
    seen = refl;
    counted = omega arith;
    begun = refl;
    at_end = λ h. absurd (omega arith);
    at_start = λ _. refl;
  }

  -- What `append` returns of a recorder that has its first value.
  first : SequenceRecorder A → A → SequenceRecorder A
  first r x = record r { buf = set r.buf r.cur x; started = true; len = r.len + 1 }

  later : SequenceRecorder A → A → SequenceRecorder A
  later r x = record r {
    cur = (r.cur + 1) % cap;
    buf = set r.buf ((r.cur + 1) % cap) x;
    beg = if r.beg == (r.cur + 1) % cap then (r.beg + 1) % cap else r.beg;
    len = r.len + 1;
  }

  append-first :
      (r : SequenceRecorder A) (x : A)
      → r.started ≡ false
      → r.len < int_max
      → append cap r x ≡ some (first r x)
  unfolding append first
  append-first r x s h = let e : (r.len == int_max) ≡ false = ground arith in rw (s, e)

  append-later :
      (r : SequenceRecorder A) (x : A)
      → r.started ≡ true
      → r.len < int_max
      → append cap r x ≡ some (later r x)
  unfolding append later
  append-later r x s h = let e : (r.len == int_max) ≡ false = ground arith in rw (s, e)

  -- The first value, also the first after `clear`.
  first-Holds :
      {r : SequenceRecorder A} {xs : List A} (x : A)
      → Holds r xs
      → r.started ≡ false
      → r.len < int_max
      → Holds (first r x) (last cap (xs ++ x ∷ []))
  unfolding first read
  first-Holds {r} {xs} x h s lt =
      let empty : r.len ≡ 0 = ground (arith, h.begun) in
      let none_yet : xs ≡ [] = eq-nil_of_length xs (omega (arith, h.counted)) in
      let whole : last cap (xs ++ x ∷ []) ≡ x ∷ [] =
        rw none_yet (last-all cap (x ∷ []) (omega (arith, h.pos))) in
      rw whole (record {
        pos = h.pos;
        small = h.small;
        size = length-set r.buf r.cur x ∙ h.size;
        beg_in = h.beg_in;
        cur_in = h.cur_in;
        len_in = omega arith;
        seen =
            read-cons cap (set r.buf r.cur x) r.beg 0
              (rw (h.at_start empty, mod-eq_of_lt h.cur_in)
                (get_elem?-set_self r.buf r.cur x (omega (arith, h.size, h.cur_in))))
              refl;
        counted = omega (arith, h.pos);
        begun = ground arith;
        at_end = λ p. rw (add-zero, h.at_start empty) (sym (mod-eq_of_lt h.cur_in));
        at_start = λ p. absurd (omega arith);
      })

  -- The place of the next value.
  next_place :
      {r : SequenceRecorder A} {xs : List A}
      → Holds r xs
      → 0 < r.len
      → (r.cur + 1) % cap ≡ (r.beg + length xs) % cap
  next_place {r} {xs} h p =
      rw (h.at_end p, mod-add-mod) (ap (λ (k : ℕ). k % cap) (omega (arith, h.counted, h.pos)))

  -- A recorder in which `x` has been written to a place, as `append` leaves it.
  stored : SequenceRecorder A → ℕ → ℕ → A → SequenceRecorder A
  stored r place beg x = record r {
    cur = place;
    buf = set r.buf place x;
    beg = beg;
    len = r.len + 1;
  }

  stored-Holds :
      {r : SequenceRecorder A} {xs : List A} (place beg : ℕ) (x : A) (ys : List A)
      → Holds r xs
      → 0 < r.len
      → r.len < int_max
      → beg < cap
      → place ≡ (beg + (length ys - 1)) % cap
      → length ys ≡ min cap (r.len + 1)
      → read cap (set r.buf place x) beg (length ys) ≡ some ys
      → Holds (stored r place beg x) ys
  unfolding stored
  stored-Holds {r} place beg x ys h p lt b at n seen = record {
    pos = h.pos;
    small = h.small;
    size = length-set r.buf place x ∙ h.size;
    beg_in = b;
    cur_in = rw at (mod-lt (beg + (length ys - 1)) h.pos);
    len_in = omega arith;
    seen = seen;
    counted = n;
    begun = ground (arith, h.begun);
    at_end = λ _. at;
    at_start = λ e. absurd (omega arith);
  }

  -- A value where there is room.
  later-Holds_room :
      {r : SequenceRecorder A} {xs : List A} (x : A)
      → Holds r xs
      → 0 < r.len
      → r.len < cap
      → r.len < int_max
      → Holds (later r x) (last cap (xs ++ x ∷ []))
  later-Holds_room {r} {xs} x h p room lt =
      let n : ℕ = length xs in
      let place : ℕ = (r.beg + n) % cap in
      let long : length (xs ++ x ∷ []) ≡ suc n = rw (length-append) (omega arith) in
      let few : n ≡ r.len = omega (arith, h.counted) in
      let other : (r.beg == place) ≡ false =
        ne→== _ _ (λ e.
          add-mod-ne cap r.beg n h.beg_in (omega (arith, few)) (omega (arith, few)) (sym e)) in
      let moved : later r x ≡ stored r place r.beg x =
        unfold later stored in rw (next_place h p, other) in
      rw (moved, last-all cap (xs ++ x ∷ []) (omega (arith, long)))
        (stored-Holds place r.beg x (xs ++ x ∷ []) h p lt h.beg_in
          (rw long (ap (λ (k : ℕ). (r.beg + k) % cap) (omega arith))) (omega (arith, long))
          (rw long (
            read-snoc cap (set r.buf place x) r.beg n xs x
              (read-set_out cap r.buf place x r.beg n
                  (λ t lt. mod_ne cap r.beg t n h.pos lt (omega (arith, h.counted)))
                ∙ h.seen)
              (get_elem?-set_self r.buf place x
                (omega (arith, h.size, mod-lt (r.beg + n) h.pos))))))

  -- A value where the buffer is full: it takes the place of the oldest.
  later-Holds_full :
      {r : SequenceRecorder A} (xs : List A) (x : A)
      → Holds r xs
      → cap ≤ r.len
      → r.len < int_max
      → Holds (later r x) (last cap (xs ++ x ∷ []))
  later-Holds_full {r} [] x h full lt = absurd (omega (arith, h.counted, h.pos))
  later-Holds_full {r} (y ∷ ys) x h full lt =
      let c : ℕ = length ys in
      let round : suc c ≡ cap = omega (arith, h.counted) in
      let long : length (ys ++ x ∷ []) ≡ suc c = rw (length-append) (omega arith) in
      let back : (r.beg + 1 + c) % cap ≡ r.beg =
        ap (λ (k : ℕ). k % cap) (omega (arith, round))
        ∙ add-mod_right r.beg cap
        ∙ mod-eq_of_lt h.beg_in in
      let place : (r.cur + 1) % cap ≡ r.beg =
        next_place h (omega (arith, h.pos)) ∙ ap (λ (k : ℕ). k % cap) (omega arith) ∙ back in
      let moved : later r x ≡ stored r r.beg ((r.beg + 1) % cap) x =
        unfold later stored in rw (place, eq→== r.beg r.beg refl) in
      let kept : last cap (y ∷ ys ++ x ∷ []) ≡ ys ++ x ∷ [] =
        let one : suc (length (ys ++ x ∷ [])) - cap ≡ 1 = omega (arith, long, round) in rw one in
      let (z, zs, g, s, e) = read-uncons cap r.buf r.beg c h.seen in
      let tail_read : read cap r.buf (r.beg + 1) c ≡ some ys =
        s ∙ ap (λ l. some (drop 1 l)) (sym e) in
      rw (moved, kept)
        (stored-Holds r.beg ((r.beg + 1) % cap) x (ys ++ x ∷ []) h (omega (arith, h.pos)) lt
          (mod-lt (r.beg + 1) h.pos)
          (rw (long, mod-add-mod) (sym back ∙ ap (λ (k : ℕ). (r.beg + 1 + k) % cap) (omega arith)))
          (omega (arith, long, round))
          (rw (long, read-mod)
            (read-snoc cap (set r.buf r.beg x) (r.beg + 1) c ys x
              (read-set_out cap r.buf r.beg x (r.beg + 1) c
                  (λ t lt e. mod_ne cap (r.beg + 1) t c h.pos lt (omega (arith, round)) (back ∙ e))
                ∙ tail_read)
              (rw back (get_elem?-set_self r.buf r.beg x (omega (arith, h.size, h.beg_in)))))))

  -- `append` keeps the invariant: it adds the value at the end, and drops the oldest one of a full
  -- buffer.
  pub append-Holds :
      {r : SequenceRecorder A} (xs : List A) (x : A)
      → Holds r xs
      → r.len < int_max
      → (r' : SequenceRecorder A) × (append cap r x ≡ some r')
        × Holds r' (last cap (xs ++ x ∷ []))
        × (r'.len ≡ r.len + 1)
  append-Holds {r} xs x h lt = elim (Bool-cases r.started) [
    | inr s ↦ (first r x, append-first r x s lt, first-Holds x h s lt, unfold first in refl)
    | inl s ↦
        let p : 0 < r.len = ground (arith, h.begun) in
        (
          later r x,
          append-later r x s lt,
          elim (dec_lt r.len cap) [
            | yes room ↦ later-Holds_room x h p room lt
            | no full ↦ later-Holds_full xs x h (omega arith) lt
          ],
          unfold later in refl,
        )
  ]
