-- ===== src/Container/SequenceRecorder/Laws.antt =====
-- The operations of container/sequence_recorder.h on a recorder that holds a list of values, and what a
-- recorder holds after any sequence of `append`.
use selib.Prelude.{
  ℕ, ◌+◌, ◌^◌, ◌≤◌, ◌<◌, ◌≡◌, refl, ap, inl, inr, Bool, Option, some, List, [], ◌∷◌, ◌++◌, arith,
  ◌==◌, ◌>>=◌, if◌then◌else◌, length, take, last, last-all, last-append, Bool-cases,
}
use mathlib.Core.List.{append-nil, append_assoc, foldl}
use selib.Container.SequenceRecorder.{
  SequenceRecorder, int_max, init, append, clear, get_len, read, get_every, sum_loop, get_sum,
  count_loop, get_count, get_avg, get_density,
}
use selib.Container.SequenceRecorder.Read.{read-take}
use selib.Container.SequenceRecorder.Append.{Holds, init-Holds, append-Holds}

-- The number of values that equal `e`.
pub occurrences {ℓ} : {A : Type ℓ} → (A → A → Bool) → A → List A → ℕ
occurrences eq e [] = 0
occurrences eq e (x ∷ xs) = (if eq e x then 1 else 0) + occurrences eq e xs

module _ {ℓ} {A : Type ℓ} (cap : ℕ) where
  -- A sequence of `append`.
  unfoldable pub append_all : SequenceRecorder A → List A → Option (SequenceRecorder A)
  append_all r [] = some r
  append_all r (x ∷ xs) = do r' ← append cap r x; append_all r' xs

  pub append_all-Holds :
      (xs : List A) {r : SequenceRecorder A} (ys : List A)
      → Holds cap r ys
      → r.len + length xs ≤ int_max
      → (r' : SequenceRecorder A) × (append_all r xs ≡ some r') × Holds cap r' (last cap (ys ++ xs))
  unfolding append_all
  append_all-Holds [] {r} ys h fits =
      (r, refl, rw (append-nil, last-all cap ys (omega (arith, h.counted))) h)
  append_all-Holds (x ∷ xs) {r} ys h fits =
      let (r', ran, h', n) = append-Holds cap ys x h (omega arith) in
      let (r'', ran', h'') = append_all-Holds xs {r = r'} _ h' (omega (arith, n)) in
      (r'', rw (ran, ran'), rw (last-append, append_assoc) at h'')

  -- `clear` leaves a recorder that holds nothing and works on as before.
  pub clear-Holds : {r : SequenceRecorder A} (xs : List A) → Holds cap r xs → Holds cap (clear r) []
  unfolding clear read
  clear-Holds {r} xs h = record {
    pos = h.pos;
    small = h.small;
    size = h.size;
    beg_in = h.cur_in;
    cur_in = h.cur_in;
    len_in = omega arith;
    seen = refl;
    counted = omega arith;
    begun = refl;
    at_end = λ p. absurd (omega arith);
    at_start = λ _. refl;
  }

  pub get_len-Holds :
      {r : SequenceRecorder A} (xs : List A) → Holds cap r xs → get_len cap r ≡ length xs
  unfolding get_len
  get_len-Holds xs h = ground (arith, h.counted)

  pub get_every-Holds :
      {r : SequenceRecorder A} (xs : List A) (n : ℕ)
      → Holds cap r xs
      → get_every cap r n ≡ some (take n xs, length xs)
  unfolding get_every
  get_every-Holds {r} xs n h =
      rw (get_len-Holds xs h, read-take cap r.buf r.beg n (length xs) h.seen)

  sum_loop-foldl : (plus : A → A → A) (z : A) (xs : List A) → sum_loop plus z xs ≡ foldl plus z xs
  unfolding sum_loop
  sum_loop-foldl plus z [] = refl
  sum_loop-foldl plus z (x ∷ xs) = sum_loop-foldl plus (plus z x) xs

  pub get_sum-Holds :
      {r : SequenceRecorder A} (xs : List A) (plus : A → A → A) (z : A)
      → Holds cap r xs
      → get_sum cap plus z r ≡ some (foldl plus z xs)
  unfolding get_sum
  get_sum-Holds {r} xs plus z h = rw (get_len-Holds xs h, h.seen, sum_loop-foldl)

  count_loop-occurrences :
      (eq : A → A → Bool) (e : A) (n : ℕ) (xs : List A)
      → count_loop eq e n xs ≡ n + occurrences eq e xs
  unfolding count_loop occurrences
  count_loop-occurrences eq e n [] = omega arith
  count_loop-occurrences eq e n (x ∷ xs) =
      ground (arith, count_loop-occurrences eq e n xs, count_loop-occurrences eq e (n + 1) xs)

  pub get_count-Holds :
      {r : SequenceRecorder A} (xs : List A) (eq : A → A → Bool) (e : A)
      → Holds cap r xs
      → get_count cap eq e r ≡ some (occurrences eq e xs)
  unfolding get_count
  get_count-Holds {r} xs eq e h =
      rw (get_len-Holds xs h, h.seen, count_loop-occurrences) (ap some (omega arith))

  pub get_avg-Holds :
      {r : SequenceRecorder A} (xs : List A) (plus : A → A → A) (z : A) (div : A → ℕ → A)
      → Holds cap r xs
      → get_avg cap plus z div r
        ≡ some (if length xs == 0 then z else div (foldl plus z xs) (length xs))
  unfolding get_avg
  get_avg-Holds {r} xs plus z div h =
      rw (get_len-Holds xs h, h.seen, sum_loop-foldl)
        (elim (Bool-cases (length xs == 0)) [ inl e ↦ rw e | inr e ↦ rw e ])

  pub get_density-Holds {κ} :
      {D : Type κ} {r : SequenceRecorder A} (xs : List A) (eq : A → A → Bool) (z : D)
      (ratio : ℕ → ℕ → D) (e : A)
      → Holds cap r xs
      → get_density cap eq z ratio e r
        ≡ some (if length xs == 0 then z else ratio (occurrences eq e xs) (length xs))
  unfolding get_density
  get_density-Holds {r} xs eq z ratio e h =
      rw (get_len-Holds xs h, h.seen, count_loop-occurrences)
        (elim (Bool-cases (length xs == 0)) [
          | inl t ↦ rw t
          | inr t ↦ rw t (ap (λ (k : ℕ). some (ratio k (length xs))) (omega arith))
        ])

  -- A fresh recorder takes any sequence of values, as long as their number fits an `int`, and then
  -- holds the last `LEN` of them, the oldest first: `get_every` copies out the first `n` of these and
  -- returns their number, `get_sum` is their sum from zero, `get_avg` that sum divided by their number
  -- (zero if there is none), `get_count` the number of those that equal `e`, and `get_density` that number
  -- divided by their number (zero if there is none). No call reads out of the buffer.
  pub append_all_reads {κ} :
      {D : Type κ} (memory xs : List A) (n : ℕ) (plus : A → A → A) (z : A) (div : A → ℕ → A)
      (eq : A → A → Bool) (e : A) (zd : D) (ratio : ℕ → ℕ → D)
      → 0 < cap
      → cap ≤ 2 ^ 30
      → length memory ≡ cap
      → length xs ≤ int_max
      → (r : SequenceRecorder A) × (append_all (init memory) xs ≡ some r)
        × (get_every cap r n ≡ some (take n (last cap xs), length (last cap xs)))
        × (get_sum cap plus z r ≡ some (foldl plus z (last cap xs)))
        × (get_avg cap plus z div r
            ≡ some (
                if length (last cap xs) == 0
                then z
                else div (foldl plus z (last cap xs)) (length (last cap xs))))
        × (get_count cap eq e r ≡ some (occurrences eq e (last cap xs)))
        × (get_density cap eq zd ratio e r
            ≡ some (
                if length (last cap xs) == 0
                then zd
                else ratio (occurrences eq e (last cap xs)) (length (last cap xs))))
  append_all_reads memory xs n plus z div eq e zd ratio pos small size fits =
      let start = init-Holds cap memory pos small size in
      let (r, ran, h) = append_all-Holds xs [] start (unfold init in omega arith) in
      (
        r,
        ran,
        get_every-Holds _ n h,
        get_sum-Holds _ plus z h,
        get_avg-Holds _ plus z div h,
        get_count-Holds _ eq e h,
        get_density-Holds _ eq zd ratio e h,
      )
