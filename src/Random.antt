-- ===== src/Random.antt =====
-- src/lib/util/random.c, include/random.h: the KISS generator of George Marsaglia.
use Prim.Native.Nat.{bit_or, bit_xor}
pub mod Range
mod Tests
use libvci.Base.{
  ℕ, zero, suc, ◌+◌, ◌-◌, ◌*◌, ◌/◌, ◌%◌, ◌^◌, List, [], ◌∷◌, length, take, drop, ltb, ◌==◌,
  if◌then◌else◌, u32, u64, Run, ok, fault, Code, success, failure, einval, load, ◌>>=◌,
}

-- An `unsigned int [4]`.
pub record Four : Type 0 where
  pub x0 : ℕ
  pub x1 : ℕ
  pub x2 : ℕ
  pub x3 : ℕ

pub record Random : Type 0 where
  pub x : Four
  pub seed : Four

-- The words of /dev/urandom, once it is open and every read succeeds.
pub random_init : Four → Random
random_init num = record { x = num; seed = num }

pub random_destroy : Random → Random
random_destroy rand = record rand { x = record { x0 = 0; x1 = 0; x2 = 0; x3 = 0 } }

-- The `for` of random_set_seed: as many words as there are, up to four.
pub overwrite : Four → List ℕ → Four
overwrite s [] = s
overwrite s (a ∷ []) = record s { x0 = a }
overwrite s (a ∷ b ∷ []) = record s { x0 = a; x1 = b }
overwrite s (a ∷ b ∷ c ∷ []) = record s { x0 = a; x1 = b; x2 = c }
overwrite s (a ∷ b ∷ c ∷ d ∷ _) = record { x0 = a; x1 = b; x2 = c; x3 = d }

-- random_set_seed, where the array holds `size` words.
pub random_set_seed : Random → List ℕ → Code × Random
random_set_seed rand a =
    let seed = overwrite rand.seed a in
    let set : Random = record { x = overwrite rand.x a; seed = seed } in
    if bit_or (bit_or (bit_or seed.x0 seed.x1) seed.x2) seed.x3 == 0
    then (failure einval, set)
    else (success, set)

-- random_get_seed, with the array of `size` words as it is and as it becomes.
pub random_get_seed : Random → List ℕ → Code × List ℕ
random_get_seed rand a =
    if ltb (length a) 4
    then (failure einval, a)
    else (success, rand.seed.x0 ∷ rand.seed.x1 ∷ rand.seed.x2 ∷ rand.seed.x3 ∷ drop 4 a)

-- The xorshift part: `x ^= x << 13; x ^= x >> 17; x ^= x << 5`.
pub xorshift : ℕ → ℕ
xorshift x =
    let a = bit_xor x ((x * 2 ^ 13) % u32) in
    let b = bit_xor a (a / 2 ^ 17) in bit_xor b ((b * 2 ^ 5) % u32)

pub random_uint : Random → ℕ × Random
random_uint rand =
    let x0 = (69069 * rand.x.x0 + 12345) % u32 in
    let x1 = xorshift rand.x.x1 in
    let t = (698769069 * rand.x.x2 + rand.x.x3) % u64 in
    let x2 = t % u32 in
    ((x0 + x1 + x2) % u32, record rand { x = record { x0 = x0; x1 = x1; x2 = x2; x3 = t / u32 } })

-- A remainder by 0 is an error of the processor.
pub remainder : ℕ → ℕ → Run ℕ
remainder n zero = fault
remainder n (suc d) = ok (n % suc d)

pub random_uint_range : Random → ℕ → ℕ → Run (ℕ × Random)
random_uint_range rand min max =
    let (n, rand') = random_uint rand in
    remainder n ((max + u32 - min + 1) % u32) >>= λ r. ok ((r + min) % u32, rand')
