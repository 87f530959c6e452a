-- ===== src/Compare.antt =====
-- src/lib/util/compare.c, include/compare.h: the comparisons for the containers.
pub mod Order
mod Tests
use libvci.Base.{
  ℕ, ◌-◌, ◌^◌, ◌%◌, Ordering, Comparison, Bool, true, false, not, ltb, leb, if◌then◌else◌,
}

-- The value of a 64-bit word that is assigned to a variable of `w` bits.
pub cast : ℕ → ℕ → ℕ
cast w v = v % 2 ^ w

-- The sign bit of a variable of `w` bits.
pub negative : ℕ → ℕ → Bool
negative w a = leb (2 ^ (w - 1)) a

-- `a < b`, for signed variables of `w` bits in two's complement: of the same sign, they compare as
-- their words do.
pub signed_less : ℕ → ℕ → ℕ → Bool
signed_less w a b =
    if negative w a
    then (if negative w b then ltb a b else true)
    else (if negative w b then false else ltb a b)

-- `(a > b) - (a < b)`, by its sign.
pub difference : (greater less : Bool) → Ordering
difference true false = Ordering.gt
difference false true = Ordering.lt
difference true true = Ordering.eq
difference false false = Ordering.eq

pub compare_signed : ℕ → Comparison
compare_signed w x y =
    let a = cast w x in let b = cast w y in difference (signed_less w b a) (signed_less w a b)

pub compare_unsigned : ℕ → Comparison
compare_unsigned w x y = let a = cast w x in let b = cast w y in difference (ltb b a) (ltb a b)

pub compare_char : Comparison
compare_char c1 c2 = compare_signed 8 c1 c2

pub compare_uchar : Comparison
compare_uchar c1 c2 = compare_unsigned 8 c1 c2

pub compare_short : Comparison
compare_short s1 s2 = compare_signed 16 s1 s2

pub compare_ushort : Comparison
compare_ushort s1 s2 = compare_unsigned 16 s1 s2

pub compare_int : Comparison
compare_int i1 i2 = compare_signed 32 i1 i2

pub compare_uint : Comparison
compare_uint i1 i2 = compare_unsigned 32 i1 i2

pub compare_long : Comparison
compare_long l1 l2 = compare_signed 64 l1 l2

pub compare_ulong : Comparison
compare_ulong l1 l2 = compare_unsigned 64 l1 l2

-- strcmp of the C library, as a parameter.
pub compare_string : (ℕ → ℕ → Ordering) → Comparison
compare_string strcmp s1 s2 = strcmp s1 s2
