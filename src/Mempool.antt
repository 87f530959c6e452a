-- ===== src/Mempool.antt =====
-- src/lib/util/mempool.c, include/mempool.h: a pool of chunks in memory that the caller gives.
pub mod Free
pub mod Alloc
pub mod Release
pub mod Odd
mod Tests
use libvci.Base.{
  ℕ, ◌+◌, ◌-◌, ◌*◌, ◌/◌, ◌%◌, max, Bool, true, false, ◌&&◌, ◌||◌, Option, none, some, ltb, leb,
  ◌==◌, if◌then◌else◌, u32, Run, ok, fault, ◌>>=◌,
}

-- `mem`, `init` and `next` are addresses.
pub record Mempool : Type 0 where
  pub mem : ℕ
  pub init : ℕ
  pub next : ℕ
  pub size : ℕ
  pub chunk_size : ℕ
  pub chunks : ℕ

-- The `unsigned long` at each address. The pool writes at the starts of chunks alone, which are at
-- least 8 bytes apart, so that no two of these overlap.
abbrev pub Words : Type 0
Words = ℕ → ℕ

pub mempool_init : ℕ → ℕ → ℕ → Mempool
mempool_init mem size chunk_size =
    let chunk_size = max 8 chunk_size in
    record {
      mem = mem;
      init = mem;
      next = mem;
      size = size;
      chunk_size = chunk_size;
      chunks = (size / chunk_size) % u32;
    }

-- mempool_new, on whether malloc gives the struct; `none` is NULL.
pub mempool_new : Bool → ℕ → ℕ → ℕ → Option Mempool
mempool_new granted mem size chunk_size =
    if granted then some (mempool_init mem size chunk_size) else none

pub mempool_destroy : Mempool → Mempool
mempool_destroy pool = record { mem = 0; init = 0; next = 0; size = 0; chunk_size = 0; chunks = 0 }

pub mempool_delete : Mempool → Mempool
mempool_delete pool = mempool_destroy pool

pub mempool_empty : Mempool → Bool
mempool_empty pool = pool.chunks == 0

-- All 8 bytes at `a` lie in the memory of the pool.
pub within : Mempool → ℕ → Bool
within pool a = leb pool.mem a && leb (a + 8) (pool.mem + pool.size)

pub put : Mempool → Words → ℕ → ℕ → Run Words
put pool words a v = if within pool a then ok (λ p. if p == a then v else words p) else fault

-- The first `if` of mempool_alloc_chunk: one more chunk is linked to its successor.
pub thread_chunk : Words → Mempool → Run (Words × Mempool)
thread_chunk words pool =
    if ltb pool.init (pool.mem + pool.size)
    then (do
      words' ← put pool words pool.init (pool.init + pool.chunk_size)
      ok (words', record pool { init = pool.init + pool.chunk_size }))
    else ok (words, pool)

-- The rest of mempool_alloc_chunk; `fallback` is what malloc gives.
pub take_chunk : Option ℕ → Words → Mempool → Run (Option ℕ × Words × Mempool)
take_chunk fallback words pool =
    if mempool_empty pool
    then ok (fallback, words, pool)
    else if within pool pool.next
    then ok
        (some pool.next, words, record pool { chunks = pool.chunks - 1; next = words pool.next })
    else fault

pub mempool_alloc_chunk : Option ℕ → Words → Mempool → Run (Option ℕ × Words × Mempool)
mempool_alloc_chunk fallback words pool =
    thread_chunk words pool >>= λ r. take_chunk fallback (r.0) (r.1)

-- mempool_free_chunk; a chunk from elsewhere goes to free, and the pool stays.
pub mempool_free_chunk : Words → Mempool → ℕ → Run (Words × Mempool)
mempool_free_chunk words pool chunk =
    if ltb chunk pool.mem || leb (pool.mem + pool.size) chunk then ok (words, pool) else do
      words' ← put pool words chunk pool.next
      ok (words', record pool { chunks = (pool.chunks + 1) % u32; next = chunk })
