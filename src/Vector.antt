-- ===== src/Vector.antt =====
-- src/lib/container/vector.c, include/vector.h: a growing array of pointers.
pub mod Slots
pub mod Valid
pub mod Change
pub mod Search
pub mod Thin
pub mod Sorted
pub mod InsertSorted
pub mod SortedSearch
mod Tests
use libvci.Base.{
  ℕ, zero, suc, ◌+◌, ◌-◌, ◌*◌, ◌/◌, ◌%◌, Ordering, Comparison, is_eq, is_gt, Bool, true, false, not,
  ◌&&◌, Option, none, some, List, [], ◌∷◌, ◌++◌, take, drop, ltb, leb, ◌==◌, if◌then◌else◌, u32,
  Run, ok, fault, out_of_fuel, ◌>>=◌, Code, success, failure, enomem, Allocator, load, store, move,
  calloc, malloc, realloc,
}
use libvci.Nice.{get_nice_size}

-- `data` holds `void *` words, and has a slot for each unit of the allocated block.
-- A function pointer is `none` for NULL.
pub record Vector : Type 0 where
  pub data_compare : Option Comparison
  pub data_delete : Option ℕ
  pub data_words : List ℕ
  pub size : ℕ
  pub capacity : ℕ

abbrev pub default_capacity : ℕ
default_capacity = 8

-- `(unsigned int) -1`
abbrev pub not_found : ℕ
not_found = u32 - 1

-- vector_init; `none` leaves the caller's struct without a block.
pub vector_init : Allocator → ℕ → Run (Code × Option Vector)
vector_init mem capacity = do
  n ← get_nice_size capacity default_capacity
  elim (calloc mem n) [
    | none ↦ ok (failure enomem, none)
    | some b ↦ ok (
      success,
      some (record {
        data_compare = none;
        data_delete = none;
        data_words = b;
        size = 0;
        capacity = n;
      }),
    )
  ]

-- The `for` of vector_clear, from slot `i` for `n` rounds.
pub clear_loop : List ℕ → ℕ → ℕ → Run (List ℕ)
clear_loop block zero i = ok []
clear_loop block (suc n) i = do
  x ← load block i
  deleted ← clear_loop block n (suc i)
  ok (x ∷ deleted)

pub clear_with : Option ℕ → Vector → Run (List ℕ × Vector)
clear_with none vec = ok ([], record vec { size = 0 })
clear_with (some _) vec = do
  deleted ← clear_loop vec.data_words vec.size 0
  ok (deleted, record vec { size = 0 })

pub vector_clear : Vector → Run (List ℕ × Vector)
vector_clear vec = clear_with vec.data_delete vec

-- vector_destroy gives the block back; what is left is the list of deleted elements.
pub vector_destroy : Vector → Run (List ℕ)
vector_destroy vec = do (deleted, _) ← vector_clear vec; ok deleted

pub vector_size : Vector → ℕ
vector_size vec = vec.size

pub vector_empty : Vector → Bool
vector_empty vec = vec.size == 0

-- The realloc of vector_set_capacity.
pub reallocate : Allocator → Vector → ℕ → Code × Vector
reallocate mem vec n = elim (realloc mem vec.data_words n) [
  | none ↦ (failure enomem, vec)
  | some b ↦ (success, record vec { data_words = b; capacity = n })
]

pub vector_set_capacity : Allocator → Vector → ℕ → Run (Code × Vector)
vector_set_capacity mem vec capacity = do
  let cut = if ltb capacity vec.size then record vec { size = capacity } else vec
  n ← get_nice_size capacity default_capacity
  if n == cut.capacity then ok (success, cut) else ok (reallocate mem cut n)

pub vector_capacity : Vector → ℕ
vector_capacity vec = vec.capacity

pub vector_squeeze : Allocator → Vector → Run (Code × Vector)
vector_squeeze mem vec = vector_set_capacity mem vec vec.size

-- The test of the search loops: by the comparison if there is one, else by the pointer.
pub matches : Option Comparison → ℕ → ℕ → Bool
matches (some cmp) x key = is_eq (cmp x key)
matches none x key = x == key

-- The `for` of vector_index_of, from slot `i` for `n` rounds.
pub index_loop : Option Comparison → List ℕ → ℕ → ℕ → ℕ → Run ℕ
index_loop cmp block key zero i = ok not_found
index_loop cmp block key (suc n) i =
    let rest = index_loop cmp block key n (suc i) in
    load block i >>= λ x. if matches cmp x key then ok i else rest

pub vector_index_of : Vector → ℕ → Run ℕ
vector_index_of vec key = index_loop vec.data_compare vec.data_words key vec.size 0

pub vector_contains : Vector → ℕ → Run Bool
vector_contains vec key = do i ← vector_index_of vec key; ok (not (i == not_found))

-- The part of vector_insert_at behind the growth.
pub place : Vector → ℕ → ℕ → Run (Code × Vector)
place vec i x = do
  b ← move vec.data_words (i + 1) i ((vec.size + u32 - i) % u32)
  b' ← store b i x
  ok (success, record vec { data_words = b'; size = (vec.size + 1) % u32 })

-- `if(err < 0) return err;` behind the growth.
pub after_growth : Code × Vector → ℕ → ℕ → Run (Code × Vector)
after_growth (success, vec) i x = place vec i x
after_growth (failure e, vec) i x = ok (failure e, vec)

pub vector_insert_at : Allocator → Vector → ℕ → ℕ → Run (Code × Vector)
vector_insert_at mem vec i x =
    if leb vec.capacity vec.size
    then (do grown ← vector_set_capacity mem vec ((vec.capacity * 2) % u32); after_growth grown i x)
    else place vec i x

pub vector_insert_front : Allocator → Vector → ℕ → Run (Code × Vector)
vector_insert_front mem vec x = vector_insert_at mem vec 0 x

pub vector_insert_back : Allocator → Vector → ℕ → Run (Code × Vector)
vector_insert_back mem vec x = vector_insert_at mem vec vec.size x

pub vector_take_at : Vector → ℕ → Run (ℕ × Vector)
vector_take_at vec i = do
  x ← load vec.data_words i
  let size = (vec.size + u32 - 1) % u32
  b ← move vec.data_words i (i + 1) ((size + u32 - i) % u32)
  ok (x, record vec { data_words = b; size = size })

pub vector_take_front : Vector → Run (ℕ × Vector)
vector_take_front vec = vector_take_at vec 0

pub vector_take_back : Vector → Run (ℕ × Vector)
vector_take_back vec = vector_take_at vec ((vec.size + u32 - 1) % u32)

-- vector_take, with 0 for NULL; its loop is that of vector_index_of.
pub vector_take : Vector → ℕ → Run (ℕ × Vector)
vector_take vec key = do
  i ← vector_index_of vec key
  if i == not_found then ok (0, vec) else vector_take_at vec i

-- The `for` of vector_take_all: `size` shrinks while `i` goes on.
pub take_all_loop : ℕ → Option Comparison → Vector → ℕ → ℕ → Run Vector
take_all_loop zero cmp vec key i = out_of_fuel
take_all_loop (suc fuel) cmp vec key i =
    let removed = vector_take_at vec i >>= λ r. take_all_loop fuel cmp r.1 key (suc i) in
    let kept = take_all_loop fuel cmp vec key (suc i) in
    let step = load vec.data_words i >>= λ x. if matches cmp x key then removed else kept in
    if ltb i vec.size then step else ok vec

pub vector_take_all : Vector → ℕ → Run Vector
vector_take_all vec key = take_all_loop (vec.size + 1) vec.data_compare vec key 0

-- vector_at, vector_front and vector_back give the address of a slot: its index in the block. The
-- last slot of an empty vector would lie before the block.
pub vector_at : Vector → ℕ → ℕ
vector_at vec i = i

pub vector_front : Vector → ℕ
vector_front vec = 0

pub vector_back : Vector → Run ℕ
vector_back vec = if vec.size == 0 then fault else ok (vec.size - 1)

-- One round of a binary search: the next bounds, or the slot of an equal element.
pub data Round : Type 0 where
  narrow : ℕ → ℕ → Round
  hit : ℕ → Round

pub round_of : Ordering → ℕ → ℕ → ℕ → Round
round_of Ordering.lt l r m = narrow l ((m + u32 - 1) % u32)
round_of Ordering.gt l r m = narrow ((m + 1) % u32) r
round_of Ordering.eq l r m = hit m

pub probe : Option Comparison → List ℕ → ℕ → ℕ → ℕ → Run Round
probe none block key l r = fault
probe (some cmp) block key l r = do
  let m = ((l + r) % u32) / 2
  x ← load block m
  ok (round_of (cmp key x) l r m)

-- The `while(l <= r && r != UINT_MAX)` of vector_insert_sorted: the slot to insert at.
pub insert_search : ℕ → Option Comparison → List ℕ → ℕ → ℕ → ℕ → Run ℕ
insert_search zero cmp block key l r = out_of_fuel
insert_search (suc fuel) cmp block key l r =
    let next =
      probe cmp block key l r
      >>= elim [ narrow l' r' ↦ insert_search fuel cmp block key l' r' | hit m ↦ ok m ] in
    if leb l r && not (r == u32 - 1) then next else ok l

pub vector_insert_sorted : Allocator → Vector → ℕ → Run (Code × Vector)
vector_insert_sorted mem vec key = if vector_empty vec then vector_insert_back mem vec key else do
  i ← insert_search 33 vec.data_compare vec.data_words key 0 (vec.size - 1)
  vector_insert_at mem vec i key

-- The `while(l <= r)` of vector_index_of_sorted.
pub sorted_search : ℕ → Option Comparison → List ℕ → ℕ → ℕ → ℕ → Run ℕ
sorted_search zero cmp block key l r = out_of_fuel
sorted_search (suc fuel) cmp block key l r =
    let next =
      probe cmp block key l r
      >>= elim [ narrow l' r' ↦ sorted_search fuel cmp block key l' r' | hit m ↦ ok m ] in
    if leb l r then next else ok not_found

pub vector_index_of_sorted : Vector → ℕ → Run ℕ
vector_index_of_sorted vec key =
    if vector_empty vec
    then ok not_found
    else sorted_search 34 vec.data_compare vec.data_words key 0 (vec.size - 1)

pub vector_take_sorted : Vector → ℕ → Run (ℕ × Vector)
vector_take_sorted vec key = do
  i ← vector_index_of_sorted vec key
  if i == not_found then ok (0, vec) else vector_take_at vec i

pub vector_contains_sorted : Vector → ℕ → Run Bool
vector_contains_sorted vec key = do i ← vector_index_of_sorted vec key; ok (not (i == not_found))

-- qsort_r of the C library, as a parameter: it rearranges the live slots.
pub vector_sort : (Comparison → List ℕ → List ℕ) → Vector → Run Vector
vector_sort qsort vec = elim vec.data_compare [
  | none ↦ if ltb vec.size 2 then ok vec else fault
  | some cmp ↦ ok (record vec {
    data_words = qsort cmp (take vec.size vec.data_words) ++ drop vec.size vec.data_words;
  })
]

pub vector_set_data_compare : Vector → Option Comparison → Vector
vector_set_data_compare vec f = record vec { data_compare = f }

pub vector_set_data_delete : Vector → Option ℕ → Vector
vector_set_data_delete vec f = record vec { data_delete = f }

-- vector_new, with the four words of the struct; `none` is NULL.
pub vector_new : Allocator → ℕ → Run (Option Vector)
vector_new mem capacity = elim (malloc mem 4) [
  | none ↦ ok none
  | some _ ↦ vector_init mem capacity >>= λ r. ok (r.1)
]

pub vector_delete : Vector → Run (List ℕ)
vector_delete vec = vector_destroy vec
