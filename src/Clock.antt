-- ===== src/Clock.antt =====
-- src/lib/util/clock.c, include/clock.h: a stop watch on a clock of the system.
pub mod Elapsed
mod Tests
use libvci.Base.{
  ℕ, ◌+◌, ◌-◌, ◌*◌, ◌/◌, ◌%◌, ◌^◌, Bool, true, false, leb, if◌then◌else◌, u64, Option, ◌⊎◌, inl,
  inr, Errno, Code, success, failure, none, some,
}

-- Both members are of 64 bits in two's complement.
pub record Timespec : Type 0 where
  pub tv_sec : ℕ
  pub tv_nsec : ℕ

-- What clock_gettime says is the argument `now` of the operations that ask for it.
pub record Clock : Type 0 where
  pub start : Timespec
  pub current : Timespec
  pub clk_id : ℕ
  pub active : Bool

-- `-` of two 64-bit words.
pub minus : ℕ → ℕ → ℕ
minus a b = (a % u64 + u64 - b % u64) % u64

pub timespec_zero : Timespec
timespec_zero = record { tv_sec = 0; tv_nsec = 0 }

-- _timespec_diff. `tv_nsec += 1e9` adds in floating point, which is exact for such numbers.
pub timespec_diff : Timespec → Timespec → Timespec
timespec_diff t1 t2 =
    let nsec = minus t1.tv_nsec t2.tv_nsec in
    let sec = minus t1.tv_sec t2.tv_sec in
    if leb (2 ^ 63) nsec
    then record { tv_sec = minus sec 1; tv_nsec = (nsec + 10 ^ 9) % u64 }
    else record { tv_sec = sec; tv_nsec = nsec }

pub clock_clear : Clock → Clock
clock_clear c = record c { start = timespec_zero; current = timespec_zero; active = false }

-- What a call of clock_gettime gives: the time, or errno.
abbrev pub Reading : Type 0
Reading = Timespec ⊎ Errno

-- clock_init, on what its two calls of clock_gettime give.
pub clock_init : Reading → Reading → Clock → ℕ → Code × Clock
clock_init (inr errno) second c clk_id = (failure errno, c)
clock_init (inl start) (inr errno) c clk_id = (failure errno, record c { start = start })
clock_init (inl start) (inl current) c clk_id =
    let c = record c { start = start; current = current } in
    (success, record (clock_clear c) { clk_id = clk_id })

pub clock_destroy : Clock → Clock
clock_destroy c = clock_clear c

pub clock_start : Timespec → Clock → Clock
clock_start now c = record c { start = now; active = true }

pub clock_stop : Timespec → Clock → Clock
clock_stop now c = record c { current = now; active = false }

pub clock_reset : Timespec → Clock → Clock
clock_reset now c =
    let c = record c { current = timespec_zero } in
    if c.active then clock_start now c else record c { start = timespec_zero }

-- _clock_elapsed
pub clock_elapsed : Timespec → Clock → Timespec × Clock
clock_elapsed now c =
    let c = if c.active then record c { current = now } else c in
    (timespec_diff c.current c.start, c)

-- clock_continue asks for the time twice.
pub clock_continue : Timespec → Timespec → Clock → Clock
clock_continue now now' c =
    let (ts, c) = clock_elapsed now c in record c { start = timespec_diff now' ts; active = true }

pub clock_elapsed_ms : Timespec → Clock → ℕ × Clock
clock_elapsed_ms now c =
    let (ts, c) = clock_elapsed now c in ((ts.tv_sec * 1000 + ts.tv_nsec / 10 ^ 6) % u64, c)

pub clock_elapsed_us : Timespec → Clock → ℕ × Clock
clock_elapsed_us now c =
    let (ts, c) = clock_elapsed now c in ((ts.tv_sec * 10 ^ 6 + ts.tv_nsec / 1000) % u64, c)

pub clock_elapsed_ns : Timespec → Clock → ℕ × Clock
clock_elapsed_ns now c =
    let (ts, c) = clock_elapsed now c in ((ts.tv_sec * 10 ^ 9 + ts.tv_nsec % 10 ^ 9) % u64, c)

-- clock_new, on what malloc gives; `none` is NULL. The result of clock_init is not looked at.
pub clock_new : Reading → Reading → Option Clock → ℕ → Option Clock
clock_new first second none clk_id = none
clock_new first second (some c) clk_id = some (clock_init first second c clk_id).1

pub clock_delete : Clock → Clock
clock_delete c = clock_destroy c
