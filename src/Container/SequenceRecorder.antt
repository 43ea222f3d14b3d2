-- ===== src/Container/SequenceRecorder.antt =====
-- container/sequence_recorder.h: `SequenceRecorder<TYPE, LEN>`, the last `LEN` values in a circle
-- buffer. `LEN` is the parameter `cap`. A `none` is a fault: a read out of the buffer, or the overflow of
-- the `int` `_len`.
pub mod Read
pub mod Append
pub mod Laws
mod Tests
use selib.Prelude.{
  ℕ, zero, suc, ◌+◌, ◌-◌, ◌%◌, ◌^◌, Bool, true, false, Option, none, some, List, [], ◌∷◌, ◌==◌, leb,
  ◌&&◌, if◌then◌else◌, ◌>>=◌, get_elem?, set,
}
use Prim.Native.Nat.{min}

abbrev pub int_max : ℕ
int_max = 2 ^ 31 - 1

pub record SequenceRecorder {ℓ} (A : Type ℓ) : Type ℓ where
  pub buf : List A
  pub beg : ℕ
  pub cur : ℕ
  pub len : ℕ
  pub started : Bool

module _ {ℓ} {A : Type ℓ} where
  -- The constructor. The buffer is what the memory holds.
  pub init : List A → SequenceRecorder A
  init memory = record { buf = memory; beg = 0; cur = 0; len = 0; started = false }

  -- `++ _len`
  pub count_up : SequenceRecorder A → Option (SequenceRecorder A)
  count_up r = if r.len == int_max then none else some (record r { len = r.len + 1 })

  pub clear : SequenceRecorder A → SequenceRecorder A
  clear r = record r { beg = r.cur; len = 0; started = false }

  -- The loop `sum += …` over the values read.
  pub sum_loop : (A → A → A) → A → List A → A
  sum_loop plus sum [] = sum
  sum_loop plus sum (x ∷ xs) = sum_loop plus (plus sum x) xs

  -- The loop of `get_count`, for the `==` of `TYPE`.
  pub count_loop : (A → A → Bool) → A → ℕ → List A → ℕ
  count_loop eq e count [] = count
  count_loop eq e count (x ∷ xs) = count_loop eq e (if eq e x then count + 1 else count) xs

module _ {ℓ} {A : Type ℓ} (cap : ℕ) where
  pub append : SequenceRecorder A → A → Option (SequenceRecorder A)
  unfolding count_up
  append r x =
      if r.started
      then (let cur' = (r.cur + 1) % cap in
          count_up (record r {
            cur = cur';
            buf = set r.buf cur' x;
            beg = if r.beg == cur' then (r.beg + 1) % cap else r.beg;
          }))
      else count_up (record r { buf = set r.buf r.cur x; started = true })

  pub get_len : SequenceRecorder A → ℕ
  get_len r = if leb cap r.len then cap else r.len

  -- The values that the loops of `get_every`, `get_sum` and `get_count` read: `_buf[j % LEN]` for `n`
  -- rounds from `j` on.
  pub read : List A → ℕ → ℕ → Option (List A)
  read buf j zero = some []
  read buf j (suc n) = do x ← get_elem? buf (j % cap); xs ← read buf (j + 1) n; some (x ∷ xs)

  -- `get_every`: the values that go to `out[0]`, `out[1]`, …, and the result.
  pub get_every : SequenceRecorder A → ℕ → Option (List A × ℕ)
  unfolding get_len read
  get_every r len = do xs ← read r.buf r.beg (min len (get_len r)); some (xs, get_len r)

  -- `get_sum`, for the sum and the zero of `TYPE`.
  pub get_sum : (A → A → A) → A → SequenceRecorder A → Option A
  unfolding get_len read sum_loop
  get_sum plus none_yet r = do xs ← read r.buf r.beg (get_len r); some (sum_loop plus none_yet xs)

  -- `get_avg`, for the division of `TYPE` by an `int`.
  pub get_avg : (A → A → A) → A → (A → ℕ → A) → SequenceRecorder A → Option A
  unfolding get_len get_sum
  get_avg plus none_yet div r =
      if get_len r == 0
      then some none_yet
      else (do sum ← get_sum plus none_yet r; some (div sum (get_len r)))

  pub get_count : (A → A → Bool) → A → SequenceRecorder A → Option ℕ
  unfolding get_len read count_loop
  get_count eq e r = do xs ← read r.buf r.beg (get_len r); some (count_loop eq e 0 xs)

  -- `get_density`, for the division of `double` and its zero.
  pub get_density {κ} :
      {D : Type κ} → (A → A → Bool) → D → (ℕ → ℕ → D) → A → SequenceRecorder A → Option D
  unfolding get_len get_count
  get_density eq zero_density ratio e r =
      if get_len r == 0
      then some zero_density
      else (do count ← get_count eq e r; some (ratio count (get_len r)))
