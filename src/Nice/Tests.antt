-- ===== src/Nice/Tests.antt =====
-- Runs of get_nice_size.
use libvci.Base.{◌≤◌, ◌<◌, ◌≡◌, ◌⊎◌, refl, arith, ok, out_of_fuel, Returns}
use libvci.Nice.{get_nice_size, nice_loop}
use libvci.Nice.Power.{IsLeastPower, get_nice_size-IsLeastPower, nice_loop-diverges}

small : get_nice_size 3 8 ≡ ok 8
unfolding get_nice_size
small = refl

rounded : get_nice_size 33 8 ≡ ok 64
unfolding get_nice_size
rounded = refl

endless : get_nice_size 2147483649 8 ≡ out_of_fuel
unfolding get_nice_size
endless = refl

get_nice_size-IsLeastPower_example :
    Returns (λ r. ((33 < 8) × (r ≡ 8)) ⊎ ((8 ≤ 33) × IsLeastPower 33 r)) (get_nice_size 33 8)
get_nice_size-IsLeastPower_example = get_nice_size-IsLeastPower 33 8 (omega arith)

nice_loop-diverges_example : nice_loop 50 2147483649 1 ≡ out_of_fuel
nice_loop-diverges_example = nice_loop-diverges 50 2147483649 (omega arith)
