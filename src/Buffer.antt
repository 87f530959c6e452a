-- ===== src/Buffer.antt =====
-- src/lib/container/buffer.c, include/buffer.h: a byte buffer with a read and a write position.
pub mod Contents
pub mod Grow
pub mod Remove
mod Tests
use libvci.Base.{
  ℕ, zero, suc, ◌+◌, ◌-◌, ◌*◌, ◌/◌, ◌%◌, ◌^◌, Bool, true, false, Option, none, some, List, [], ◌∷◌,
  ◌++◌, length, take, drop, ltb, leb, ◌==◌, if◌then◌else◌, u32, u64, Run, ok, fault, out_of_fuel,
  ◌>>=◌, Code, success, failure, enomem, Allocator, move, malloc, realloc, get_or,
}
use libvci.Nice.{get_nice_size}

-- `data` has one slot for each byte of the allocated block.
pub record Buffer : Type 0 where
  pub data_bytes : List ℕ
  pub accessed : ℕ
  pub used : ℕ
  pub size : ℕ

abbrev pub default_size : ℕ
default_size = 128

-- get_nice_size takes an `unsigned int`, and is given a `size_t`.
pub nice_size : ℕ → Run ℕ
nice_size size = get_nice_size (size % u32) default_size

-- The realloc of _buffer_resize.
pub reallocate : Allocator → Buffer → ℕ → Code × Buffer
reallocate mem buf n = elim (realloc mem buf.data_bytes n) [
  | none ↦ (failure enomem, buf)
  | some b ↦ (success, record buf { data_bytes = b; size = n })
]

-- _buffer_resize
pub buffer_resize : Allocator → Buffer → ℕ → Run (Code × Buffer)
buffer_resize mem buf new_size = do
  n ← nice_size new_size
  if n == buf.size then ok (success, buf) else ok (reallocate mem buf n)

-- _buffer_remove
pub buffer_remove : Buffer → ℕ → ℕ → Run Buffer
buffer_remove buf i size = do
  b ← move buf.data_bytes i (i + size) ((buf.used + u64 - i + u64 - size + 1) % u64)
  ok (record buf { data_bytes = b; used = (buf.used + u64 - size) % u64 })

-- buffer_init; `none` leaves the caller's struct without a block.
pub buffer_init : Allocator → ℕ → Run (Code × Option Buffer)
buffer_init mem size = do
  n ← nice_size size
  elim (malloc mem n) [
    | none ↦ ok (failure enomem, none)
    | some b ↦ ok (success, some (record { data_bytes = b; accessed = 0; used = 0; size = n }))
  ]

-- buffer_new, with the 32 bytes of the struct; `none` is NULL.
pub buffer_new : Allocator → ℕ → Run (Option Buffer)
buffer_new mem size = elim (malloc mem 32) [
  | none ↦ ok none
  | some _ ↦ buffer_init mem size >>= λ r. ok (r.1)
]

-- memcpy of `bytes` into a block from `at` on.
pub copy_in : List ℕ → ℕ → List ℕ → Run (List ℕ)
copy_in block at bytes =
    if leb (at + length bytes) (length block)
    then ok (take at block ++ (bytes ++ drop (at + length bytes) block))
    else fault

-- memcpy of `n` bytes out of a block from `at` on.
pub copy_out : List ℕ → ℕ → ℕ → Run (List ℕ)
copy_out block at n = if leb (at + n) (length block) then ok (take n (drop at block)) else fault

-- What buffer_clone does with the new buffer.
pub clone_into : Buffer → Bool → Option Buffer → Run (Option Buffer)
clone_into buf clear_accessed none = ok none
clone_into buf clear_accessed (some clone) = do
  bytes ← copy_out buf.data_bytes 0 buf.used
  b ← copy_in clone.data_bytes 0 bytes
  let copied = record clone { data_bytes = b; used = buf.used }
  ok (some (if clear_accessed then copied else record copied { accessed = buf.accessed }))

pub buffer_clone : Allocator → Buffer → Bool → Run (Option Buffer)
buffer_clone mem buf clear_accessed =
    buffer_new mem buf.used >>= λ clone. clone_into buf clear_accessed clone

pub buffer_clear : Buffer → Buffer
buffer_clear buf = record buf { accessed = 0; used = 0 }

-- The `while(new_size <= buf->size + size)` of buffer_prepare_write.
pub widen : ℕ → ℕ → ℕ → Run ℕ
widen zero least new_size = out_of_fuel
widen (suc fuel) least new_size =
    let rest = widen fuel least ((new_size * 2) % u64) in
    if leb new_size least then rest else ok new_size

-- A power of two is shifted out after at most 64 rounds.
pub buffer_prepare_write : Allocator → Buffer → ℕ → Run (Code × Buffer)
buffer_prepare_write mem buf size =
    if leb ((buf.used + size) % u64) buf.size
    then ok (success, buf)
    else do new_size ← widen 65 ((buf.size + size) % u64) buf.size; buffer_resize mem buf new_size

pub buffer_write : Buffer → List ℕ → Run Buffer
buffer_write buf bytes = do
  b ← copy_in buf.data_bytes buf.used bytes
  ok (record buf { data_bytes = b; used = (buf.used + length bytes) % u64 })

pub buffer_read : Buffer → ℕ → Run (List ℕ × Buffer)
buffer_read buf n = do
  bytes ← copy_out buf.data_bytes buf.accessed n
  ok (bytes, record buf { accessed = (buf.accessed + n) % u64 })

-- The object representation of a `w`-byte number, lowest byte first.
pub encode : ℕ → ℕ → List ℕ
encode zero v = []
encode (suc w) v = (v % 256) ∷ encode w (v / 256)

pub decode : List ℕ → ℕ
decode [] = 0
decode (b ∷ bytes) = b + 256 * decode bytes

-- BUFFER_DEFINE_WRITE, for a type of `w` bytes.
pub buffer_write_value : ℕ → Buffer → ℕ → Run Buffer
buffer_write_value w buf v = buffer_write buf (encode w v)

-- BUFFER_DEFINE_READ, for a type of `w` bytes.
pub buffer_read_value : ℕ → Buffer → Run (ℕ × Buffer)
buffer_read_value w buf = do (bytes, buf') ← buffer_read buf w; ok (decode bytes, buf')

pub buffer_bytes_accessible : Buffer → ℕ
buffer_bytes_accessible buf = (buf.used + u64 - buf.accessed) % u64

pub buffer_squeeze : Allocator → Buffer → Run Buffer
buffer_squeeze mem buf = do (_, buf') ← buffer_resize mem buf buf.used; ok buf'

pub buffer_clear_accessed : Buffer → Run Buffer
buffer_clear_accessed buf = do
  buf' ← buffer_remove buf 0 buf.accessed
  ok (record buf' { accessed = 0 })

pub buffer_clear_unaccessed : Buffer → Run Buffer
buffer_clear_unaccessed buf = buffer_remove buf buf.accessed ((buf.used + u64 - buf.accessed) % u64)

pub buffer_size : Buffer → ℕ
buffer_size buf = buf.used

pub buffer_empty : Buffer → Bool
buffer_empty buf = buffer_size buf == 0

-- The index is an `int`: a word of 32 bits that is negative from 2^31 on.
pub buffer_at : Buffer → ℕ → Run ℕ
buffer_at buf i =
    if leb (2 ^ 31) i
    then fault
    else if ltb i (length buf.data_bytes)
    then ok (get_or buf.data_bytes i 0)
    else fault
