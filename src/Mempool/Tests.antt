-- ===== src/Mempool/Tests.antt =====
-- The pool's theorems at a pool of three chunks of 16 bytes from address 1000 on.
use libvci.Base.{◌≡◌, refl, arith, [], ◌∷◌, none, some, ◌==◌, if◌then◌else◌, fault, Returns}
use libvci.Mempool.{Mempool, Words, mempool_init, mempool_alloc_chunk}
use libvci.Mempool.Free.{IsPool}
use libvci.Mempool.Alloc.{mempool_alloc_chunk-pops}
use libvci.Mempool.Odd.{alloc_times, mempool_alloc_chunk-fault}

abbrev words : Words
words a = if a == 1000 then 1016 else 0

-- The first chunk came back, the other two were never given out.
abbrev pool : Mempool
pool = record { mem = 1000; init = 1016; next = 1000; size = 48; chunk_size = 16; chunks = 3 }

pool-IsPool : IsPool words pool (1000 ∷ 1016 ∷ 1032 ∷ [])
pool-IsPool = (
  1000 ∷ [],
  2,
  record {
    split = refl;
    leads = (refl, refl);
    inside = (omega arith, omega arith, tt);
    distinct = (tt, tt);
    counted = refl;
    room = refl;
    after = omega arith;
    wide = omega arith;
    small = omega arith;
  },
)

-- The first chunk is in use.
abbrev busy : Mempool
busy = record { mem = 1000; init = 1016; next = 1016; size = 48; chunk_size = 16; chunks = 2 }

busy-IsPool : IsPool words busy (1016 ∷ 1032 ∷ [])
busy-IsPool = (
  [],
  2,
  record {
    split = refl;
    leads = refl;
    inside = tt;
    distinct = tt;
    counted = refl;
    room = refl;
    after = omega arith;
    wide = omega arith;
    small = omega arith;
  },
)

mempool_alloc_chunk-pops_example :
    Returns
      (λ r. (r.0 ≡ some 1000) × IsPool r.1 r.2 (1016 ∷ 1032 ∷ []))
      (mempool_alloc_chunk none words pool)
mempool_alloc_chunk-pops_example =
    mempool_alloc_chunk-pops none words pool 1000 (1016 ∷ 1032 ∷ []) pool-IsPool

-- 36 bytes: two chunks of 16 bytes, and 4 bytes more.
mempool_alloc_chunk-fault_example :
    Returns
      (λ s. (s.0 ≡ some 1000 ∷ some 1016 ∷ []) × (mempool_alloc_chunk none s.1 s.2 ≡ fault))
      (alloc_times 2 none (λ _. 0) (mempool_init 1000 36 16))
mempool_alloc_chunk-fault_example =
    mempool_alloc_chunk-fault none (λ _. 0) 1000 16 2 4 (omega arith) (omega arith) (omega arith)
      (omega arith)
