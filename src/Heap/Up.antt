-- ===== src/Heap/Up.antt =====
-- _heap_heapify_up restores the order above the last element.
use mathlib.Core.List.Perm
use libvci.Base.{
  Ranks, is_gt, Comparison, ℕ, zero, suc, ◌≤◌, ◌<◌, refl, ◌≢◌, ◌∙◌, inl, inr, arith, List, length,
  get_or, ltb, Bool-cases, load-ok, exchange, length-exchange, get_or-exchange, take-exchange-perm,
  Returns, returns, Returns-mono,
}
use libvci.Heap.{up_loop}
use libvci.Heap.Order.{parent, key, IsBridged, Sifted, swap-ok}

module _ (rank : ℕ → ℕ) where
  -- Only the edge above `i` may be out of order.
  pub record UpInv (size : ℕ) (block : List ℕ) (i : ℕ) : Type 0 where
    pub inside : i < size
    pub room : size ≤ length block
    pub edges : (c : ℕ) → 0 < c → c < size → c ≢ i → key rank block c ≤ key rank block (parent c)
    pub bridged : IsBridged rank size block i

  exchange-UpInv :
      (size : ℕ) (block : List ℕ) (i : ℕ)
      → UpInv size block i
      → 0 < i
      → key rank block (parent i) ≤ key rank block i
      → UpInv size (exchange block i (parent i)) (parent i)
  exchange-UpInv size block i v pos above =
      let at = get_or-exchange block i (parent i) (omega arith) (omega arith) in
      record {
        inside = omega arith;
        room = omega (arith, length-exchange block i (parent i));
        edges = λ c p q r.
            ground (arith, at c, at (parent c), v.edges c, v.bridged c, v.edges (parent c));
        bridged = λ c p q r t.
            ground (arith, at c, at (parent (parent i)), v.edges c, v.edges (parent i));
      }

module _ (rank : ℕ → ℕ) (cmp : Comparison) (ranks : Ranks rank cmp) where
  pub up_loop-Sifted :
      (fuel size : ℕ) (block : List ℕ) (i : ℕ)
      → i < fuel
      → UpInv rank size block i
      → Returns (Sifted rank size block) (up_loop cmp fuel block i)
  unfolding up_loop
  up_loop-Sifted zero size block i f v = absurd (omega arith)
  up_loop-Sifted (suc fuel) size block i f v =
      let up : parent i < length block = omega arith in
      let here : i < length block = omega arith in
      let size_kept = length-exchange block i (parent i) in
      rw (load-ok block (parent i) up, load-ok block i here, swap-ok block i (parent i) here up)
        (elim (Bool-cases (ltb 0 i)) [
          | inr root ↦ rw root (returns (λ c p q. v.edges c p q (ground arith), Perm.rfl, refl))
          | inl pos ↦
              rw pos
                (elim (Bool-cases (is_gt (cmp (get_or block (parent i) 0) (get_or block i 0)))) [
                  | inl settled ↦ rw settled (
                      returns (
                        λ c p q. ground (
                          arith,
                          v.edges c,
                          ranks (get_or block (parent i) 0) (get_or block i 0),
                        ),
                        Perm.rfl,
                        refl,
                      ))
                  | inr rises ↦
                      let above : key rank block (parent i) ≤ key rank block i =
                        ground (arith, ranks (get_or block (parent i) 0) (get_or block i 0)) in
                      let next = exchange-UpInv rank size block i v (ground arith) above in
                      rw rises (
                        Returns-mono
                          (up_loop-Sifted fuel size (exchange block i (parent i)) (parent i)
                            (ground arith) next)
                          λ b (heap, perm, len). (
                            heap,
                            Perm.trans perm (
                                take-exchange-perm size block i (parent i) v.room v.inside
                                  (omega (arith, v.inside))),
                            len ∙ size_kept,
                          ))
                ])
        ])
