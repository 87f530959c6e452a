-- ===== src/Hash.antt =====
-- src/lib/util/hash.c, include/hash.h: the hash functions for the map.
use Prim.Native.Nat.{bit_and, bit_xor}
pub mod Collide
mod Tests
use libvci.Base.{ℕ, ◌+◌, ◌-◌, ◌*◌, ◌/◌, ◌%◌, ◌^◌, List, [], ◌∷◌, ltb, if◌then◌else◌, u32, u64}

-- `hval += (hval << k)` and `hval ^= (hval >> k)`
pub add_shifted : ℕ → ℕ → ℕ
add_shifted k hval = (hval + (hval * 2 ^ k) % u32) % u32

pub mix_shifted : ℕ → ℕ → ℕ
mix_shifted k hval = bit_xor hval (hval / 2 ^ k)

-- `hval &= 0x0fffffff`
pub low_bits : ℕ → ℕ
low_bits hval = bit_and hval 268435455

-- The last three steps of both functions.
pub finish : ℕ → ℕ
finish hval = add_shifted 15 (mix_shifted 11 (add_shifted 3 hval))

-- hash_ulong, of a word of 64 bits.
pub hash_ulong : ℕ → ℕ
hash_ulong key =
    let hval = (1 + key) % u32 in
    let hval = mix_shifted 6 (add_shifted 10 hval) in
    let hval = (hval + key / u32) % u32 in finish (low_bits hval)

pub hash_char : ℕ → ℕ
hash_char key = hash_ulong key

pub hash_uchar : ℕ → ℕ
hash_uchar key = hash_ulong key

pub hash_short : ℕ → ℕ
hash_short key = hash_ulong key

pub hash_ushort : ℕ → ℕ
hash_ushort key = hash_ulong key

pub hash_int : ℕ → ℕ
hash_int key = hash_ulong key

pub hash_uint : ℕ → ℕ
hash_uint key = hash_ulong key

pub hash_long : ℕ → ℕ
hash_long key = hash_ulong key

-- A `char` that is added to an `unsigned int`: from 128 on it is negative.
pub widened : ℕ → ℕ
widened k = if ltb k 128 then k else u32 - 256 + k

-- The `while(*k != '\0')` of hash_string, over the bytes in front of the end.
pub sum_loop : ℕ → List ℕ → ℕ
sum_loop hval [] = hval
sum_loop hval (k ∷ key) = sum_loop ((hval + widened k) % u32) key

pub hash_string : List ℕ → ℕ
hash_string key =
    let hval = sum_loop 1 key in finish (low_bits (mix_shifted 6 (add_shifted 10 hval)))
