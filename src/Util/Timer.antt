-- ===== src/Util/Timer.antt =====
-- util/timer.h: `Timer`. The readings of the monotonic clock are arguments; a `long` has 64 bits, and a `none` is a
-- signed overflow, of which C++ says nothing.
pub mod Laws
mod Tests
use selib.Prelude.{ℕ, suc, ◌-◌, ◌/◌, ◌^◌, Option, none, some, ltb, if◌then◌else◌, ◌>>=◌}
use selib.Prelude.Int.{ℤ, pos, negsuc, ◌+ℤ◌, ◌*ℤ◌, sub_ℕ}

-- `timespec`
pub record Timespec : Type 0 where
  pub tv_sec : ℕ
  pub tv_nsec : ℕ

pub record Timer : Type 0 where
  pub start_time : Timespec
  pub check_point_time : Timespec

-- `clear`
pub clear : Timer → Timer
clear t = record {
  start_time = record { tv_sec = 0; tv_nsec = 0 };
  check_point_time = record { tv_sec = 0; tv_nsec = 0 };
}

pub restart : Timespec → Timer → Timer
restart now t = record { start_time = now; check_point_time = now }

-- The constructor, on the memory of the object.
pub new_timer : Timespec → Timer → Timer
unfolding clear restart
new_timer now memory = restart now (clear memory)

pub check : Timespec → Timer → Timer
check now t = record t { check_point_time = now }

-- A result of an operation on `long`, in two's complement.
pub long : ℤ → Option ℤ
long (pos n) = if ltb n (2 ^ 63) then some (pos n) else none
long (negsuc n) = if ltb n (2 ^ 63) then some (negsuc n) else none

-- `a / k` for a positive `k`, which rounds to zero.
pub quotient : ℤ → ℕ → ℤ
quotient (pos n) k = pos (n / k)
quotient (negsuc n) k = sub_ℕ 0 (suc n / k)

pub nsec_elapsed : Timespec → Timer → Option (ℤ × Timer)
unfolding check long
nsec_elapsed now t = do
  secs ← long (sub_ℕ (check now t).check_point_time.tv_sec (check now t).start_time.tv_sec)
  whole ← long (secs *ℤ pos 1000000000)
  rest ← long (sub_ℕ (check now t).check_point_time.tv_nsec (check now t).start_time.tv_nsec)
  ns ← long (whole +ℤ rest)
  some (ns, check now t)

pub usec_elapsed : Timespec → Timer → Option (ℤ × Timer)
unfolding nsec_elapsed quotient
usec_elapsed now t = do (ns, t') ← nsec_elapsed now t; some (quotient ns 1000, t')

pub msec_elapsed : Timespec → Timer → Option (ℤ × Timer)
unfolding usec_elapsed quotient
msec_elapsed now t = do (us, t') ← usec_elapsed now t; some (quotient us 1000, t')

pub sec_elapsed : Timespec → Timer → Option (ℤ × Timer)
unfolding msec_elapsed quotient
sec_elapsed now t = do (ms, t') ← msec_elapsed now t; some (quotient ms 1000, t')
