-- ===== src/Buffer/Tests.antt =====
-- The buffer's theorems at concrete buffers.
use libvci.Base.{◌+◌, ◌≡◌, refl, arith, true, [], ◌∷◌, replicate, fault, ◌>>=◌, Allocator, Returns}
use libvci.Buffer.{
  Buffer, buffer_write, buffer_write_value, buffer_read_value, buffer_prepare_write,
  buffer_clear_accessed, buffer_clear_unaccessed, encode,
}
use libvci.Buffer.Contents.{
  IsValid, Written, unread, buffer_write-append, buffer_read_value-buffer_write_value,
}
use libvci.Buffer.Grow.{Sized, wide_size, buffer_prepare_write-Sized}
use libvci.Buffer.Remove.{buffer_remove-fault_when_full}

abbrev generous : Allocator
generous = record { grants = λ n. true; junk = λ i. 99 }

-- 16 bytes of which five are written and two are read.
abbrev five : Buffer
five = record { data_bytes = 7 ∷ 8 ∷ 9 ∷ 4 ∷ 5 ∷ replicate 11 0; accessed = 2; used = 5; size = 16 }

five-IsValid : IsValid five
five-IsValid = record {
  read = omega arith;
  bounded = omega arith;
  block = refl;
  small = omega arith;
}

-- All five bytes are read.
abbrev all_read : Buffer
all_read = record five { accessed = 5 }

all_read-IsValid : IsValid all_read
all_read-IsValid = record {
  read = omega arith;
  bounded = omega arith;
  block = refl;
  small = omega arith;
}

-- A full block.
abbrev full : Buffer
full = record five { used = 16 }

full-IsValid : IsValid full
full-IsValid = record {
  read = omega arith;
  bounded = omega arith;
  block = refl;
  small = omega arith;
}

bytes_of : encode 4 16909060 ≡ 4 ∷ 3 ∷ 2 ∷ 1 ∷ []
unfolding encode
bytes_of = refl

buffer_write-append_example : Returns (Written five (1 ∷ 2 ∷ [])) (buffer_write five (1 ∷ 2 ∷ []))
buffer_write-append_example = buffer_write-append five (1 ∷ 2 ∷ []) five-IsValid (omega arith)

buffer_read_value-buffer_write_value_example :
    Returns
      (λ r. (r.0 ≡ 1000000) × IsValid r.1 × (unread r.1 ≡ []))
      (buffer_write_value 4 all_read 1000000 >>= buffer_read_value 4)
buffer_read_value-buffer_write_value_example =
    buffer_read_value-buffer_write_value 4 all_read 1000000 all_read-IsValid refl (omega arith)
      (omega arith)

buffer_prepare_write-Sized_example :
    Returns
      (Sized generous five (wide_size five 20) (five.used + 20))
      (buffer_prepare_write generous five 20)
buffer_prepare_write-Sized_example =
    buffer_prepare_write-Sized generous five 20 five-IsValid (omega arith) (omega arith)

buffer_remove-fault_when_full_example :
    (buffer_clear_accessed full ≡ fault) × (buffer_clear_unaccessed full ≡ fault)
buffer_remove-fault_when_full_example = buffer_remove-fault_when_full full full-IsValid refl
