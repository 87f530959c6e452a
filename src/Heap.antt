-- ===== src/Heap.antt =====
-- src/lib/container/heap.c, include/heap.h: an array heap with the largest element at its root.
pub mod Order
pub mod Up
pub mod Down
pub mod Resize
pub mod Insert
pub mod Take
pub mod Clear
mod Tests
use libvci.Base.{
  Comparison, is_gt, ℕ, zero, suc, ◌+◌, ◌-◌, ◌*◌, ◌/◌, ◌%◌, max, Ordering, Bool, true, false,
  Option, none, some, List, [], ◌∷◌, ltb, leb, ◌==◌, if◌then◌else◌, u32, Run, ok, fault,
  out_of_fuel, ◌>>=◌, Code, success, failure, enomem, Allocator, length, load, store, malloc,
  realloc,
}
use libvci.Nice.{get_nice_size}

-- `data` holds `void *` words, and has a slot for each unit of the allocated block.
-- `data_delete` is a function pointer, with `none` for NULL.
pub record Heap : Type 0 where
  pub data_words : List ℕ
  pub data_delete : Option ℕ
  pub data_compare : Comparison
  pub size : ℕ
  pub capacity : ℕ

abbrev pub default_capacity : ℕ
default_capacity = 8

-- `swap = data[i]; data[i] = data[j]; data[j] = swap`
pub swap : List ℕ → ℕ → ℕ → Run (List ℕ)
swap block i j = do x ← load block i; y ← load block j; b ← store block i y; store b j x

-- The `while(node > 0)` of _heap_heapify_up.
pub up_loop : Comparison → ℕ → List ℕ → ℕ → Run (List ℕ)
up_loop cmp zero block node = out_of_fuel
up_loop cmp (suc fuel) block node =
    let parent = (node - 1) / 2 in
    let rise = swap block node parent >>= λ b. up_loop cmp fuel b parent in
    let step : Run (List ℕ) = do
      p ← load block parent
      n ← load block node
      if is_gt (cmp p n) then ok block else rise
    in if ltb 0 node then step else ok block

-- `node` is less than `size`, so `size` rounds are enough.
pub heapify_up : Heap → Run Heap
heapify_up h = if ltb h.size 2 then ok h else do
  b ← up_loop h.data_compare h.size h.data_words (h.size - 1)
  ok (record h { data_words = b })

-- One of the two tests of _heap_heapify_down: the candidate replaces `parent` if it is larger.
pub larger : Comparison → ℕ → List ℕ → ℕ → ℕ → Run ℕ
larger cmp size block child parent =
    if ltb child size
    then (do
      c ← load block child
      p ← load block parent
      ok (if is_gt (cmp c p) then child else parent))
    else ok parent

-- The `while(1)` of _heap_heapify_down.
pub down_loop : Comparison → ℕ → ℕ → List ℕ → ℕ → Run (List ℕ)
down_loop cmp size zero block node = out_of_fuel
down_loop cmp size (suc fuel) block node = do
  left ← larger cmp size block ((node * 2 + 1) % u32) node
  parent ← larger cmp size block ((node * 2 + 2) % u32) left
  let sink = swap block parent node >>= λ b. down_loop cmp size fuel b parent
  if node == parent then ok block else sink

pub heapify_down : Heap → Run Heap
heapify_down h = do
  b ← down_loop h.data_compare h.size (h.size + 1) h.data_words 0
  ok (record h { data_words = b })

-- _heap_resize
pub heap_resize : Allocator → Heap → ℕ → Code × Heap
heap_resize mem h capacity =
    let capacity' = max default_capacity capacity in
    elim (realloc mem h.data_words capacity') [
      | none ↦ (failure enomem, h)
      | some b ↦ (success, record h { data_words = b; capacity = capacity' })
    ]

-- heap_init; `none` leaves the caller's struct without a block.
pub heap_init : Allocator → ℕ → Comparison → Run (Code × Option Heap)
heap_init mem capacity cmp = do
  n ← get_nice_size capacity default_capacity
  elim (malloc mem n) [
    | none ↦ ok (failure enomem, none)
    | some b ↦ ok (
      success,
      some (record {
        data_words = b;
        data_delete = none;
        data_compare = cmp;
        size = 0;
        capacity = n;
      }),
    )
  ]

-- The `while(heap->size--)` of heap_clear, with the pointers handed to `data_delete` and the value
-- that `size` has after the last decrement.
pub clear_loop : List ℕ → ℕ → Run (List ℕ × ℕ)
clear_loop block zero = ok ([], u32 - 1)
clear_loop block (suc n) = do
  x ← load block n
  (deleted, size) ← clear_loop block n
  ok (x ∷ deleted, size)

-- The test of `data_delete`, and the two ways to clear.
pub clear_with : Option ℕ → Heap → Run (List ℕ × Heap)
clear_with none h = ok ([], record h { size = 0 })
clear_with (some _) h = do
  (deleted, size) ← clear_loop h.data_words h.size
  ok (deleted, record h { size = size })

pub heap_clear : Heap → Run (List ℕ × Heap)
heap_clear h = clear_with h.data_delete h

-- heap_destroy gives the block back; what is left is the list of deleted elements.
pub heap_destroy : Heap → Run (List ℕ)
heap_destroy h = do (deleted, _) ← heap_clear h; ok deleted

-- The part of heap_insert behind the growth.
pub heap_place : Heap → ℕ → Run (Code × Heap)
heap_place h x = do
  b ← store h.data_words h.size x
  h' ← heapify_up (record h { data_words = b; size = (h.size + 1) % u32 })
  ok (success, h')

-- `if(err < 0) return err;` behind the growth.
pub heap_after_growth : Code × Heap → ℕ → Run (Code × Heap)
heap_after_growth (success, h) x = heap_place h x
heap_after_growth (failure e, h) x = ok (failure e, h)

pub heap_insert : Allocator → Heap → ℕ → Run (Code × Heap)
heap_insert mem h x =
    if leb h.capacity h.size
    then heap_after_growth (heap_resize mem h ((h.capacity * 2) % u32)) x
    else heap_place h x

-- The tail of heap_take, which ignores the outcome of _heap_resize.
pub heap_shrink : Allocator → Heap → Heap
heap_shrink mem h =
    if ltb h.size (h.capacity / 2) then (heap_resize mem h (h.capacity / 2)).1 else h

pub heap_take : Allocator → Heap → Run (ℕ × Heap)
heap_take mem h = do
  x ← load h.data_words 0
  let size = (h.size + u32 - 1) % u32
  last ← load h.data_words size
  b ← store h.data_words 0 last
  h' ← heapify_down (record h { data_words = b; size = size })
  ok (x, heap_shrink mem h')

pub heap_retrieve : Heap → Run ℕ
heap_retrieve h = load h.data_words 0

pub heap_empty : Heap → Bool
heap_empty h = h.size == 0

pub heap_size : Heap → ℕ
heap_size h = h.size

pub heap_set_data_delete : Heap → Option ℕ → Heap
heap_set_data_delete h f = record h { data_delete = f }

pub heap_set_data_compare : Heap → Comparison → Heap
heap_set_data_compare h f = record h { data_compare = f }

-- heap_new, with the four words of the struct; `none` is NULL.
pub heap_new : Allocator → ℕ → Comparison → Run (Option Heap)
heap_new mem capacity cmp = elim (malloc mem 4) [
  | none ↦ ok none
  | some _ ↦ heap_init mem capacity cmp >>= λ r. ok (r.1)
]

pub heap_delete : Heap → Run (List ℕ)
heap_delete h = heap_destroy h
