-- ===== src/Mempool/Alloc.antt =====
-- mempool_alloc_chunk gives out the free chunks in order.
use libvci.Base.{
  ℕ, zero, suc, ◌+◌, ◌<◌, ◌≡◌, ◌⊎◌, ◌∙◌, sym, ap, subst, inl, inr, arith, true, false, List, [],
  ◌∷◌, ◌++◌, length, length-append, ltb, leb, ◌==◌, Option, some, Returns, returns, Returns-bind,
}
use libvci.Mempool.{
  Mempool, Words, within, put, thread_chunk, take_chunk, mempool_empty, mempool_alloc_chunk,
}
use libvci.Mempool.Free.{
  unused, Leads, Holds, IsPool, write, end_of-least, write-Leads, Inside-Missing, Inside-snoc,
  Distinct-snoc, Leads-snoc, append-shift,
}

-- What the first `if` of mempool_alloc_chunk leaves: if a chunk is free, one of those that came back.
abbrev Threaded : Mempool → List ℕ → Words × Mempool → Type 0
Threaded pool free r =
    (back : List ℕ) × (rest : ℕ) × Holds r.0 r.1 free back rest × ((free ≡ []) ⊎ (0 < length back))

-- A chunk that was never given out goes behind those that came back.
thread_chunk-Threaded :
    (words : Words) (pool : Mempool) (free back : List ℕ) (rest : ℕ)
    → Holds words pool free back rest
    → Returns (Threaded pool free) (thread_chunk words pool)
unfolding thread_chunk put within
thread_chunk-Threaded words pool free [] zero p =
    let room = p.room in
    let none_left : ltb pool.init (pool.mem + pool.size) ≡ false = ground arith in
    rw none_left (returns ([], zero, p, inl p.split))
thread_chunk-Threaded words pool free (a ∷ back) zero p =
    let room = p.room in
    let none_left : ltb pool.init (pool.mem + pool.size) ≡ false = ground arith in
    rw none_left (returns (a ∷ back, zero, p, inr (omega arith)))
thread_chunk-Threaded words pool free back (suc n) p =
    let room = p.room in
    let wide = p.wide in
    let after = p.after in
    let least = end_of-least (pool.init + pool.chunk_size) pool.chunk_size n in
    let some_left : ltb pool.init (pool.mem + pool.size) ≡ true = ground arith in
    let low : leb pool.mem pool.init ≡ true = ground arith in
    let high : leb (pool.init + 8) (pool.mem + pool.size) ≡ true = ground arith in
    let fresh = Inside-Missing pool.mem pool.chunk_size pool.init back wide p.inside in
    let there : write words pool.init (pool.init + pool.chunk_size) pool.init
        ≡ pool.init + pool.chunk_size =
      ground arith in
    let counted = p.counted in
    let small = p.small in
    let one_more = length-append back (pool.init ∷ []) in
    rw (some_left, low, high)
      (returns (
        back ++ pool.init ∷ [],
        n,
        (record {
          split =
              p.split
              ∙ append-shift back pool.init
                  (unused (pool.init + pool.chunk_size) pool.chunk_size n);
          leads =
              Leads-snoc (write words pool.init (pool.init + pool.chunk_size)) pool.next pool.init
                (pool.init + pool.chunk_size) back
                (write-Leads words pool.init (pool.init + pool.chunk_size) pool.next pool.init back
                  fresh p.leads)
                there;
          inside = Inside-snoc pool.mem pool.chunk_size pool.init back after p.inside;
          distinct = Distinct-snoc pool.init back fresh p.distinct;
          counted = omega arith;
          room = room;
          after = omega arith;
          wide = wide;
          small = omega arith;
        }),
        inr (omega arith),
      ))

take_chunk-pops :
    (fallback : Option ℕ) (words : Words) (pool : Mempool) (a : ℕ) (free back : List ℕ) (rest : ℕ)
    → Holds words pool (a ∷ free) back rest
    → 0 < length back
    → Returns (λ r. (r.0 ≡ some a) × IsPool r.1 r.2 free) (take_chunk fallback words pool)
unfolding take_chunk mempool_empty within
take_chunk-pops fallback words pool a free [] rest p h = absurd (omega arith)
take_chunk-pops fallback words pool a free (b ∷ back) rest p h =
    let (low, high, inside) = p.inside in
    let (e, leads) = p.leads in
    let wide = p.wide in
    let counted = p.counted in
    let room = p.room in
    let least = end_of-least pool.init pool.chunk_size rest in
    let small = p.small in
    let full : (pool.chunks == 0) ≡ false = ground arith in
    let below : leb pool.mem pool.next ≡ true = ground arith in
    let above : leb (pool.next + 8) (pool.mem + pool.size) ≡ true = ground arith in
    rw (full, below, above)
      (returns (
        ap some (e ∙ sym (head_eq p.split)),
        (
          back,
          rest,
          record {
            split = tail_eq p.split;
            leads = subst (λ r. Leads words (words r) back pool.init) (sym e) leads;
            inside = inside;
            distinct = p.distinct.1;
            counted = omega arith;
            room = room;
            after = p.after;
            wide = wide;
            small = omega arith;
          },
        ),
      ))
  where
    head_eq : {x y : ℕ} {xs ys : List ℕ} → x ∷ xs ≡ y ∷ ys → x ≡ y
    head_eq e = ap (λ l. elim l [ [] ↦ 0 | z ∷ zs ↦ z ]) e

    tail_eq : {x y : ℕ} {xs ys : List ℕ} → x ∷ xs ≡ y ∷ ys → xs ≡ ys
    tail_eq e = ap (λ l. elim l [ [] ↦ [] | z ∷ zs ↦ zs ]) e

-- mempool_alloc_chunk on a pool whose memory is a whole number of chunks, and which has a free
-- chunk, gives the next free chunk, and leaves the others free.
pub mempool_alloc_chunk-pops :
    (fallback : Option ℕ) (words : Words) (pool : Mempool) (a : ℕ) (free : List ℕ)
    → IsPool words pool (a ∷ free)
    → Returns (λ r. (r.0 ≡ some a) × IsPool r.1 r.2 free) (mempool_alloc_chunk fallback words pool)
unfolding mempool_alloc_chunk
mempool_alloc_chunk-pops fallback words pool a free (back, rest, p) =
    Returns-bind (thread_chunk-Threaded words pool (a ∷ free) back rest p)
      λ (words', pool') (back', rest', q, some_back). elim some_back [
        | inl nothing ↦ absurd (omega (arith, ap (length {Word = ℕ}) nothing))
        | inr more ↦ take_chunk-pops fallback words' pool' a free back' rest' q more
      ]
