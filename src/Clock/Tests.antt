-- ===== src/Clock/Tests.antt =====
-- The clock's theorems at concrete times.
use libvci.Base.{ℕ, ◌+◌, ◌-◌, ◌≡◌, arith, false}
use libvci.Clock.{Timespec, Clock, clock_start, clock_stop, clock_continue, clock_elapsed_ns}
use libvci.Clock.Elapsed.{IsTime, nanoseconds, clock_continue-sum}

abbrev at : ℕ → ℕ → Timespec
at sec nsec = record { tv_sec = sec; tv_nsec = nsec }

abbrev idle : Clock
idle = record { start = at 0 0; current = at 0 0; clk_id = 1; active = false }

early : IsTime (at 5 900000000)
early = record { below_second = omega arith; sec_bounded = omega arith }

noon : IsTime (at 7 100000000)
noon = record { below_second = omega arith; sec_bounded = omega arith }

later : IsTime (at 9 500000000)
later = record { below_second = omega arith; sec_bounded = omega arith }

late : IsTime (at 12 0)
late = record { below_second = omega arith; sec_bounded = omega arith }

clock_continue-sum_example :
    (clock_elapsed_ns (at 99 0) (
      clock_stop (at 12 0) (
        clock_continue
          (at 8 0)
          (at 9 500000000)
          (clock_stop (at 7 100000000) (clock_start (at 5 900000000) idle))))).0
    ≡ (nanoseconds (at 7 100000000) - nanoseconds (at 5 900000000))
      + (nanoseconds (at 12 0) - nanoseconds (at 9 500000000))
clock_continue-sum_example =
    clock_continue-sum idle (at 5 900000000) (at 7 100000000) (at 9 500000000) (at 12 0) (at 8 0)
      (at 99 0) early noon later late (omega arith) (omega arith) (omega arith)
