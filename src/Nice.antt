-- ===== src/Nice.antt =====
-- src/lib/container/container_p.c: get_nice_size, the capacity that a container asks for.
pub mod Power
pub mod Tests
use libvci.Base.{ℕ, zero, suc, ◌*◌, ◌%◌, ltb, u32, if◌then◌else◌, Run, ok, out_of_fuel}

-- `while(n < m) n <<= 1;`, with a shift that wraps at 32 bits.
pub nice_loop : ℕ → ℕ → ℕ → Run ℕ
nice_loop zero m n = out_of_fuel
nice_loop (suc fuel) m n =
    let rest = nice_loop fuel m ((n * 2) % u32) in if ltb n m then rest else ok n

-- From 1 the shifts give at most 32 powers of two before they give 0.
unfoldable pub get_nice_size : ℕ → ℕ → Run ℕ
unfolding nice_loop
get_nice_size m min = if ltb m min then ok min else nice_loop 33 m 1
