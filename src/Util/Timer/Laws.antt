-- ===== src/Util/Timer/Laws.antt =====
-- util/timer.h: what is elapsed between two readings of the clock.
use selib.Prelude.{ℕ, ◌+◌, ◌-◌, ◌*◌, ◌/◌, ◌^◌, ◌≤◌, ◌<◌, ◌≡◌, refl, ap, ◌∙◌, some, arith}
use selib.Prelude.Int.{pos, ◌+ℤ◌, ◌*ℤ◌, sub_ℕ}
use selib.Util.Timer.{
  Timespec, Timer, restart, check, long, quotient, nsec_elapsed, usec_elapsed, msec_elapsed,
  sec_elapsed,
}

-- A reading in nanoseconds.
abbrev pub nanos : Timespec → ℕ
nanos a = a.tv_sec * 1000000000 + a.tv_nsec

abbrev pub IsTime : Timespec → Type 0
IsTime a = a.tv_nsec < 1000000000

long_pos : (n : ℕ) → n < 2 ^ 63 → long (pos n) ≡ some (pos n)
unfolding long
long_pos n h = ground (arith, h)

long_sub : (a b : ℕ) → a < 2 ^ 63 → b < 2 ^ 63 → long (sub_ℕ a b) ≡ some (sub_ℕ a b)
unfolding long
long_sub a b h k = ground (arith, h, k)

sub_le : (a b : ℕ) → b ≤ a → sub_ℕ a b ≡ pos (a - b)
sub_le a b h = ground (arith, h)

product : (n k : ℕ) → pos n *ℤ pos k ≡ pos (n * k)
unfolding ◌*ℤ◌
product n k = ground arith

sum : (w a b : ℕ) → b ≤ w + a → pos w +ℤ sub_ℕ a b ≡ pos (w + a - b)
unfolding ◌+ℤ◌
sum w a b h = ground (arith, h)

module _ (a b : Timespec) (memory : Timer) (ta : IsTime a) (tb : IsTime b)
    (order : nanos a ≤ nanos b) (small : nanos b + 1000000000 < 2 ^ 63) where
  abbrev t : Timer
  t = restart a memory

  abbrev elapsed : ℕ
  elapsed = nanos b - nanos a

  nsec_elapsed_lem : nsec_elapsed b t ≡ some (pos elapsed, check b t)
  unfolding nsec_elapsed restart check
  nsec_elapsed_lem =
      let secs : a.tv_sec ≤ b.tv_sec = omega (arith, ta, tb, order) in
      let d : ℕ = b.tv_sec - a.tv_sec in
      let e1 : long (sub_ℕ b.tv_sec a.tv_sec) ≡ some (pos d) =
        long_sub b.tv_sec a.tv_sec (omega (arith, small)) (omega (arith, small, secs))
        ∙ ap some (sub_le b.tv_sec a.tv_sec secs) in
      let e2 : long (pos d *ℤ pos 1000000000) ≡ some (pos (d * 1000000000)) =
        ap long (product d 1000000000) ∙ long_pos (d * 1000000000) (omega (arith, small)) in
      let e3 : long (sub_ℕ b.tv_nsec a.tv_nsec) ≡ some (sub_ℕ b.tv_nsec a.tv_nsec) =
        long_sub b.tv_nsec a.tv_nsec (omega (arith, tb)) (omega (arith, ta)) in
      let n : ℕ = d * 1000000000 + b.tv_nsec - a.tv_nsec in
      let e4 : long (pos (d * 1000000000) +ℤ sub_ℕ b.tv_nsec a.tv_nsec) ≡ some (pos n) =
        ap long (sum (d * 1000000000) b.tv_nsec a.tv_nsec (omega (arith, secs, order)))
        ∙ long_pos n (omega (arith, small, secs)) in
      let same : n ≡ elapsed = omega (arith, secs, order) in
      rw (e1, e2, e3, e4) (ap (λ k. some (pos k, check b t)) same)

  -- After `restart` at one reading of the clock, the four functions at a later one, which in nanoseconds and with
  -- a second more is below 2 ^ 63, give the time between the two, in nanoseconds and rounded down to
  -- microseconds, milliseconds and seconds, without an overflow.
  pub elapsed_lem :
      (nsec_elapsed b t ≡ some (pos elapsed, check b t))
      × (usec_elapsed b t ≡ some (pos (elapsed / 1000), check b t))
      × (msec_elapsed b t ≡ some (pos (elapsed / 1000000), check b t))
      × (sec_elapsed b t ≡ some (pos (elapsed / 1000000000), check b t))
  unfolding usec_elapsed msec_elapsed sec_elapsed quotient
  elapsed_lem =
      let e = nsec_elapsed_lem in
      let m : elapsed / 1000 / 1000 ≡ elapsed / 1000000 = omega arith in
      let s : elapsed / 1000000 / 1000 ≡ elapsed / 1000000000 = omega arith in
      (
        e,
        rw e refl,
        rw e (ap (λ k. some (pos k, check b t)) m),
        rw e (ap (λ k. some (pos (k / 1000), check b t)) m ∙ ap (λ k. some (pos k, check b t)) s),
      )
