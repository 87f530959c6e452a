-- ===== src/Mempool/Odd.antt =====
-- mempool_alloc_chunk where the memory is no whole number of chunks.
use native.Mathlib.Nat.{suc-mul, mul-add-div_right, div-eq_of_lt}
use libvci.Base.{
  ℕ, zero, suc, ◌+◌, ◌-◌, ◌*◌, ◌/◌, ◌%◌, ◌≤◌, ◌<◌, ◌≡◌, refl, ap, arith, max, true, false, List, [],
  ◌∷◌, ltb, leb, ◌==◌, u32, Option, some, Run, ok, fault, ◌>>=◌, Returns, returns, Returns-bind,
}
use libvci.Mempool.{
  Mempool, Words, mempool_init, within, put, thread_chunk, take_chunk, mempool_empty,
  mempool_alloc_chunk,
}
use libvci.Mempool.Free.{end_of, write, end_of-least}

-- `k` calls of mempool_alloc_chunk, with what they return.
pub alloc_times : ℕ → Option ℕ → Words → Mempool → Run (List (Option ℕ) × Words × Mempool)
alloc_times zero fallback words pool = ok ([], words, pool)
alloc_times (suc k) fallback words pool = do
  r ← mempool_alloc_chunk fallback words pool
  s ← alloc_times k fallback (r.1) (r.2)
  ok (r.0 ∷ s.0, s.1, s.2)

-- A pool none of whose chunks came back, with `n` left from address `a` on.
abbrev fresh : (mem size chunk_size a n : ℕ) → Mempool
fresh mem size chunk_size a n = record {
  mem = mem;
  init = a;
  next = a;
  size = size;
  chunk_size = chunk_size;
  chunks = n;
}

abbrev pub chunks_from : ℕ → ℕ → ℕ → List (Option ℕ)
chunks_from a chunk_size zero = []
chunks_from a chunk_size (suc n) = some a ∷ chunks_from (a + chunk_size) chunk_size n

module _ (fallback : Option ℕ) (mem size cs : ℕ) where
  take_fresh :
      (words : Words) (a n : ℕ)
      → mem ≤ a
      → a + 8 ≤ mem + size
      → take_chunk fallback
          (write words a (a + cs))
          (record (fresh mem size cs a (suc n)) { init = a + cs })
        ≡ ok (some a, write words a (a + cs), fresh mem size cs (a + cs) n)
  unfolding take_chunk mempool_empty within
  take_fresh words a n low high =
      let below : leb mem a ≡ true = ground arith in
      let above : leb (a + 8) (mem + size) ≡ true = ground arith in
      let equal : (a == a) ≡ true = ground arith in
      let full : (suc n == 0) ≡ false = ground arith in
      let less : suc n - 1 ≡ n = omega arith in rw (full, below, above, equal, less) refl

  alloc_fresh :
      (words : Words) (a n : ℕ)
      → mem ≤ a
      → a + 8 ≤ mem + size
      → mempool_alloc_chunk fallback words (fresh mem size cs a (suc n))
        ≡ ok (some a, write words a (a + cs), fresh mem size cs (a + cs) n)
  unfolding mempool_alloc_chunk thread_chunk put within
  alloc_fresh words a n low high =
      let more : ltb a (mem + size) ≡ true = ground arith in
      let below : leb mem a ≡ true = ground arith in
      let above : leb (a + 8) (mem + size) ≡ true = ground arith in
      rw (more, below, above) (take_fresh words a n low high)

  alloc_short :
      (words : Words) (a n : ℕ)
      → mem ≤ a
      → a < mem + size
      → mem + size < a + 8
      → mempool_alloc_chunk fallback words (fresh mem size cs a n) ≡ fault
  unfolding mempool_alloc_chunk thread_chunk put within
  alloc_short words a n low some_left few =
      let more : ltb a (mem + size) ≡ true = ground arith in
      let below : leb mem a ≡ true = ground arith in
      let outside : leb (a + 8) (mem + size) ≡ false = ground arith in
      rw (more, below, outside) refl

  alloc_rounds :
      (words : Words) (a n r : ℕ)
      → 8 ≤ cs
      → 0 < r
      → r < 8
      → mem ≤ a
      → end_of a cs n + r ≡ mem + size
      → Returns
          (λ s. (s.0 ≡ chunks_from a cs n) × (mempool_alloc_chunk fallback s.1 s.2 ≡ fault))
          (alloc_times n fallback words (fresh mem size cs a n))
  unfolding alloc_times
  alloc_rounds words a zero r wide some_left few low room =
      returns (refl, alloc_short words a zero low (omega arith) (omega arith))
  alloc_rounds words a (suc n) r wide some_left few low room =
      let least = end_of-least (a + cs) cs n in
      rw (alloc_fresh words a n low (omega arith)) (
        Returns-bind
          (alloc_rounds (write words a (a + cs)) (a + cs) n r wide some_left few (omega arith) room)
          λ s p. returns (ap (λ l. some a ∷ l) p.0, p.1))

end_of_product : (a cs n : ℕ) → end_of a cs n ≡ a + n * cs
end_of_product a cs zero = omega arith
end_of_product a cs (suc n) = omega (arith, end_of_product (a + cs) cs n, suc-mul n cs)

-- Where mempool_init gets memory for k chunks, k below 2^32, of at least 8 bytes each, and 1 to 7
-- bytes more, k calls of mempool_alloc_chunk give the k chunks in order, and the next call writes
-- behind the pool's memory.
pub mempool_alloc_chunk-fault :
    (fallback : Option ℕ) (words : Words) (mem chunk_size k r : ℕ)
    → 8 ≤ chunk_size
    → 0 < r
    → r < 8
    → k < u32
    → Returns
        (λ s. (s.0 ≡ chunks_from mem chunk_size k) × (mempool_alloc_chunk fallback s.1 s.2 ≡ fault))
        (alloc_times k fallback words (mempool_init mem (k * chunk_size + r) chunk_size))
unfolding mempool_init
mempool_alloc_chunk-fault fallback words mem chunk_size k r wide some_left few small =
    let size = k * chunk_size + r in
    let plain : max 8 chunk_size ≡ chunk_size = ground arith in
    let whole : size / chunk_size ≡ k = omega (
      arith,
      mul-add-div_right {m = chunk_size} (omega arith) k r,
      div-eq_of_lt {n = r} {m = chunk_size} (omega arith),
    ) in
    let counted : k % u32 ≡ k = omega arith in
    rw (plain, whole, counted)
      (alloc_rounds fallback mem size chunk_size words mem k r wide some_left few (omega arith)
        (omega (arith, end_of_product mem chunk_size k)))
