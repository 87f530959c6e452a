-- ===== src/Clock/Elapsed.antt =====
-- The time between start and stop, and that a stopped clock does not count.
use libvci.Base.{ℕ, ◌+◌, ◌-◌, ◌*◌, ◌^◌, ◌≤◌, ◌<◌, ◌≡◌, arith, leb, Bool-cases, inl, inr}
use libvci.Clock.{
  Timespec, Clock, minus, timespec_diff, clock_start, clock_stop, clock_elapsed, clock_continue,
  clock_elapsed_ns,
}

-- A time as the system gives it: of less than 2^33 seconds.
pub record IsTime (t : Timespec) : Type 0 where
  pub below_second : t.tv_nsec < 10 ^ 9
  pub sec_bounded : t.tv_sec < 2 ^ 33

abbrev pub nanoseconds : Timespec → ℕ
nanoseconds t = t.tv_sec * 10 ^ 9 + t.tv_nsec

-- The difference of two times in order is the time between them.
pub timespec_diff-nanoseconds :
    (t1 t2 : Timespec)
    → IsTime t1
    → IsTime t2
    → nanoseconds t2 ≤ nanoseconds t1
    → IsTime (timespec_diff t1 t2)
      × (nanoseconds (timespec_diff t1 t2) + nanoseconds t2 ≡ nanoseconds t1)
unfolding timespec_diff minus
timespec_diff-nanoseconds t1 t2 v w h =
    let n1 = v.below_second in
    let s1 = v.sec_bounded in
    let n2 = w.below_second in
    let s2 = w.sec_bounded in
    elim (Bool-cases (leb (2 ^ 63) (minus t1.tv_nsec t2.tv_nsec))) [
      | inl borrow ↦
          let less : t1.tv_nsec < t2.tv_nsec = ground arith in
          rw borrow
            ((record { below_second = omega arith; sec_bounded = omega arith }), omega arith)
      | inr no_borrow ↦
          let more : t2.tv_nsec ≤ t1.tv_nsec = ground arith in
          rw no_borrow
            ((record { below_second = omega arith; sec_bounded = omega arith }), omega arith)
    ]

-- A clock that is started at one time and stopped at a later one shows the nanoseconds between
-- them, at whatever time it is read.
pub clock_elapsed_ns-between :
    (c : Clock) (t1 t2 now : Timespec)
    → IsTime t1
    → IsTime t2
    → nanoseconds t1 ≤ nanoseconds t2
    → (clock_elapsed_ns now (clock_stop t2 (clock_start t1 c))).0 ≡ nanoseconds t2 - nanoseconds t1
unfolding clock_elapsed_ns clock_elapsed clock_stop clock_start
clock_elapsed_ns-between c t1 t2 now v w h =
    let (valid, total) = timespec_diff-nanoseconds t2 t1 w v h in
    let below = valid.below_second in let small = valid.sec_bounded in omega arith

-- A clock that is started, stopped, continued and stopped again at times in that order shows the sum
-- of the two stretches, at whatever time it is read.
pub clock_continue-sum :
    (c : Clock) (t1 t2 t3 t4 unused now : Timespec)
    → IsTime t1
    → IsTime t2
    → IsTime t3
    → IsTime t4
    → nanoseconds t1 ≤ nanoseconds t2
    → nanoseconds t2 ≤ nanoseconds t3
    → nanoseconds t3 ≤ nanoseconds t4
    → (clock_elapsed_ns now
        (clock_stop t4 (clock_continue unused t3 (clock_stop t2 (clock_start t1 c))))).0
      ≡ (nanoseconds t2 - nanoseconds t1) + (nanoseconds t4 - nanoseconds t3)
unfolding clock_elapsed_ns clock_elapsed clock_stop clock_start clock_continue
clock_continue-sum c t1 t2 t3 t4 unused now v1 v2 v3 v4 h12 h23 h34 =
    let (first, total) = timespec_diff-nanoseconds t2 t1 v2 v1 h12 in
    let ts = timespec_diff t2 t1 in
    let (moved, pushed) = timespec_diff-nanoseconds t3 ts v3 first (omega arith) in
    let (valid, whole) =
      timespec_diff-nanoseconds t4 (timespec_diff t3 ts) v4 moved (omega arith) in
    let below = valid.below_second in let small = valid.sec_bounded in omega arith
