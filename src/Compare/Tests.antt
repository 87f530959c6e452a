-- ===== src/Compare/Tests.antt =====
-- Runs of the comparisons: 255 is -1 as a `char`.
use libvci.Base.{◌≡◌, refl, Ordering}
use libvci.Compare.{
  compare_char, compare_uchar, compare_signed, compare_unsigned, cast, negative, signed_less,
  difference,
}

minus_one : compare_char 255 1 ≡ Ordering.lt
unfolding compare_char compare_signed cast negative signed_less difference
minus_one = refl

two_hundred : compare_uchar 255 257 ≡ Ordering.gt
unfolding compare_uchar compare_unsigned cast difference
two_hundred = refl
