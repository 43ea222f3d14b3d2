-- ===== src/Util/Timer/Tests.antt =====
-- A timer of util/timer.h over one and a half seconds.
use selib.Prelude.{◌≡◌, some, arith}
use selib.Prelude.Int.{pos}
use selib.Util.Timer.{
  Timespec, Timer, restart, check, nsec_elapsed, usec_elapsed, msec_elapsed, sec_elapsed,
}
use selib.Util.Timer.Laws.{elapsed_lem}

abbrev before : Timespec
before = record { tv_sec = 10; tv_nsec = 900000000 }

abbrev after : Timespec
after = record { tv_sec = 12; tv_nsec = 400000000 }

abbrev timer : Timer
timer = restart before (record { start_time = after; check_point_time = after })

elapsed_lem_example :
    (nsec_elapsed after timer ≡ some (pos 1500000000, check after timer))
    × (usec_elapsed after timer ≡ some (pos 1500000, check after timer))
    × (msec_elapsed after timer ≡ some (pos 1500, check after timer))
    × (sec_elapsed after timer ≡ some (pos 1, check after timer))
elapsed_lem_example =
    elapsed_lem before after (record { start_time = after; check_point_time = after }) (omega arith)
      (omega arith) (omega arith) (omega arith)
