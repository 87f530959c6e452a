-- ===== src/Mempool/Release.antt =====
-- A new pool, and mempool_free_chunk.
use native.Mathlib.Nat.{suc-mul, mul-div_cancel}
use libvci.Base.{
  ℕ, zero, suc, ◌+◌, ◌*◌, ◌/◌, ◌%◌, max, ◌≤◌, ◌<◌, ◌≡◌, refl, sym, ap, subst, arith, true, false,
  List, [], ◌∷◌, ◌++◌, length, length-append, ltb, leb, u32, Returns, returns,
}
use libvci.Mempool.{Mempool, Words, within, put, mempool_init, mempool_free_chunk}
use libvci.Mempool.Free.{unused, end_of, Leads, Missing, IsPool, write, end_of-least, write-Leads}

-- mempool_free_chunk makes a chunk that was given out the next one to be given out, and keeps the
-- other free chunks.
pub mempool_free_chunk-pushes :
    (words : Words) (pool : Mempool) (free : List ℕ) (a : ℕ)
    → (p : IsPool words pool free) → pool.mem ≤ a
    → a + pool.chunk_size ≤ pool.init
    → Missing a free
    → length free + 1 < u32
    → Returns (λ r. IsPool r.0 r.1 (a ∷ free)) (mempool_free_chunk words pool a)
unfolding mempool_free_chunk put within
mempool_free_chunk-pushes words pool free a (back, rest, p) low high absent fits =
    let wide = p.wide in
    let room = p.room in
    let counted = p.counted in
    let small = p.small in
    let least = end_of-least pool.init pool.chunk_size rest in
    let total = ap (length {Word = ℕ}) p.split in
    let parts = length-append back (unused pool.init pool.chunk_size rest) in
    let others = length-unused pool.init pool.chunk_size rest in
    let above : ltb a pool.mem ≡ false = ground arith in
    let below : leb (pool.mem + pool.size) a ≡ false = ground arith in
    let starts : leb pool.mem a ≡ true = ground arith in
    let ends : leb (a + 8) (pool.mem + pool.size) ≡ true = ground arith in
    let one_more : (pool.chunks + 1) % u32 ≡ pool.chunks + 1 = omega arith in
    let not_back = Missing-front a back _ (subst (Missing a) p.split absent) in
    let here : write words a pool.next a ≡ pool.next = ground arith in
    rw (above, below, starts, ends, one_more)
      (returns (
        a ∷ back,
        rest,
        (record {
          split = ap (λ l. a ∷ l) p.split;
          leads = (
            refl,
            subst (λ r. Leads (write words a pool.next) r back pool.init) (sym here)
                (write-Leads words a pool.next pool.next pool.init back not_back p.leads),
          );
          inside = (low, high, p.inside);
          distinct = (not_back, p.distinct);
          counted = omega arith;
          room = room;
          after = p.after;
          wide = wide;
          small = omega arith;
        }),
      ))
  where
    length-unused : (init cs n : ℕ) → length (unused init cs n) ≡ n
    length-unused init cs zero = refl
    length-unused init cs (suc n) = ap suc (length-unused (init + cs) cs n)

    Missing-front : (a : ℕ) (xs ys : List ℕ) → Missing a (xs ++ ys) → Missing a xs
    Missing-front a [] ys m = tt
    Missing-front a (x ∷ xs) ys (other, m) = (other, Missing-front a xs ys m)

end_of-mul : (init cs n : ℕ) → end_of init cs n ≡ init + n * cs
end_of-mul init cs zero = omega arith
end_of-mul init cs (suc n) = omega (arith, end_of-mul (init + cs) cs n, suc-mul n cs)

-- A new pool on a whole number of chunks has all of them free, in the order of their addresses.
pub mempool_init-IsPool :
    (words : Words) (mem n chunk_size : ℕ)
    → 8 ≤ chunk_size
    → n < u32
    → IsPool words (mempool_init mem (n * chunk_size) chunk_size) (unused mem chunk_size n)
unfolding mempool_init
mempool_init-IsPool words mem n chunk_size wide small =
    let size : max 8 chunk_size ≡ chunk_size = omega arith in
    let count : n * chunk_size / chunk_size ≡ n = mul-div_cancel n (omega arith) in
    let fits : n % u32 ≡ n = omega arith in
    rw (size, count, fits)
      (
        [],
        n,
        (record {
          split = refl;
          leads = refl;
          inside = tt;
          distinct = tt;
          counted = omega arith;
          room = end_of-mul mem chunk_size n;
          after = omega arith;
          wide = wide;
          small = omega arith;
        }),
      )
