-- ===== src/Random/Range.antt =====
-- Numbers in a range, and the seed.
use Prim.Native.Nat.{bit_or}
use native.Mathlib.Nat.{mod-lt}
use libvci.Base.{
  ℕ, zero, suc, ◌+◌, ◌-◌, ◌%◌, ◌≤◌, ◌<◌, ◌≡◌, refl, arith, List, ◌∷◌, length, drop, ltb, ◌==◌,
  Bool-cases, inl, inr, false, u32, fault, success, Returns, returns, Returns-bind,
}
use libvci.Random.{
  Random, random_uint, remainder, random_uint_range, random_set_seed, random_get_seed, overwrite,
}

remainder-less : (n d : ℕ) → 0 < d → Returns (λ r. r < d) (remainder n d)
unfolding remainder
remainder-less n zero h = absurd (omega arith)
remainder-less n (suc d) h = returns (mod-lt n h)

-- random_uint_range of the generator gives a number of the range, and leaves the generator as
-- random_uint does, unless the range is all of `unsigned int`.
pub random_uint_range-inside :
    (rand : Random) (min max : ℕ)
    → min ≤ max
    → max - min < u32 - 1
    → max < u32
    → Returns
        (λ r. (min ≤ r.0) × (r.0 ≤ max) × (r.1 ≡ (random_uint rand).1))
        (random_uint_range rand min max)
unfolding random_uint_range
random_uint_range-inside rand min max h part fits =
    let width : (max + u32 - min + 1) % u32 ≡ max - min + 1 = omega arith in
    rw width (
      Returns-bind (remainder-less (random_uint rand).0 (max - min + 1) (omega arith))
        λ r below. returns (omega arith, omega arith, refl))

-- Over all of `unsigned int` random_uint_range divides by zero.
pub random_uint_range-fault : (rand : Random) → random_uint_range rand 0 (u32 - 1) ≡ fault
unfolding random_uint_range remainder
random_uint_range-fault rand = refl

-- Four words of seed come back from random_get_seed, in front of what else the array holds, also
-- where random_set_seed refuses them because all are 0.
pub random_get_seed-random_set_seed :
    (rand : Random) (a b c d : ℕ) (more array : List ℕ)
    → 4 ≤ length array
    → random_get_seed (random_set_seed rand (a ∷ b ∷ c ∷ d ∷ more)).1 array
      ≡ (success, a ∷ b ∷ c ∷ d ∷ drop 4 array)
unfolding random_get_seed random_set_seed overwrite
random_get_seed-random_set_seed rand a b c d more array h =
    let enough : ltb (length array) 4 ≡ false = ground arith in
    elim (Bool-cases (bit_or (bit_or (bit_or a b) c) d == 0)) [
      | inl zero_seed ↦ rw (zero_seed, enough) refl
      | inr some_seed ↦ rw (some_seed, enough) refl
    ]
