-- ===== src/Heap/Down.antt =====
-- _heap_heapify_down restores the order below the root.
use mathlib.Core.List.Perm
use libvci.Base.{
  Ranks, Comparison, ℕ, zero, suc, ◌+◌, ◌-◌, ◌*◌, ◌%◌, ◌^◌, ◌≤◌, ◌<◌, ◌≡◌, refl, ◌≢◌, ◌∙◌, ◌⊎◌, inl,
  inr, arith, max, List, length, get_or, ltb, ◌==◌, Bool-cases, u32, load-ok, exchange,
  length-exchange, get_or-exchange, take-exchange-perm, Returns, returns, Returns-mono,
  Returns-bind,
}
use libvci.Heap.{larger, down_loop}
use libvci.Heap.Order.{parent, key, IsBridged, Sifted, swap-ok}

module _ (rank : ℕ → ℕ) where
  -- Only the edges below `i` may be out of order.
  pub record DownInv (size : ℕ) (block : List ℕ) (i : ℕ) : Type 0 where
    pub place : i < max size 1
    pub small : size < 2 ^ 31
    pub room : size ≤ length block
    pub edges :
        (c : ℕ) → 0 < c → c < size → parent c ≢ i → key rank block c ≤ key rank block (parent c)
    pub bridged : IsBridged rank size block i

  -- `m` is the larger of the slot `p` and, where it is live, the slot `child`.
  record IsLarger (size : ℕ) (block : List ℕ) (child p m : ℕ) : Type 0 where
    one_of : (m ≡ p) ⊎ ((m ≡ child) × (child < size))
    above_parent : key rank block p ≤ key rank block m
    above_child : child < size → key rank block child ≤ key rank block m

  exchange-DownInv :
      (size : ℕ) (block : List ℕ) (i m : ℕ)
      → DownInv size block i
      → m < size
      → (m ≡ i * 2 + 1) ⊎ (m ≡ i * 2 + 2)
      → key rank block i ≤ key rank block m
      → ((c : ℕ) → 0 < c → c < size → parent c ≡ i → key rank block c ≤ key rank block m)
      → DownInv size (exchange block m i) m
  exchange-DownInv size block i m v hm child above greatest =
      let at = get_or-exchange block m i (omega arith) (omega arith) in
      record {
        place = omega arith;
        small = omega arith;
        room = omega (arith, length-exchange block m i);
        edges = λ c p q r. ground (arith, at c, at (parent c), v.edges c, v.bridged m, greatest c);
        bridged = λ c p q r t. ground (arith, at c, at (parent m), v.edges c);
      }

module _ (rank : ℕ → ℕ) (cmp : Comparison) (ranks : Ranks rank cmp) where
  larger-IsLarger :
      (size : ℕ) (block : List ℕ) (child p : ℕ)
      → size ≤ length block
      → (child < size → p < length block)
      → Returns (IsLarger rank size block child p) (larger cmp size block child p)
  unfolding larger
  larger-IsLarger size block child p room live = elim (Bool-cases (ltb child size)) [
    | inr out ↦ rw out (returns (ground arith))
    | inl there ↦
        let inside : child < size = ground arith in
        let r = ranks (get_or block child 0) (get_or block p 0) in
        rw (there, load-ok block child (omega arith), load-ok block p (live inside))
          (returns (record {
            one_of = ground (arith, r);
            above_parent = ground (arith, r);
            above_child = λ _. ground (arith, r);
          }))
  ]

  pub down_loop-Sifted :
      (fuel size : ℕ) (block : List ℕ) (i : ℕ)
      → size - i < fuel
      → DownInv rank size block i
      → Returns (Sifted rank size block) (down_loop cmp size fuel block i)
  unfolding down_loop
  down_loop-Sifted zero size block i f v = absurd (omega arith)
  down_loop-Sifted (suc fuel) size block i f v =
      let left : (i * 2 + 1) % u32 ≡ i * 2 + 1 = omega arith in
      let right : (i * 2 + 2) % u32 ≡ i * 2 + 2 = omega arith in
      rw (left, right)
        (Returns-bind (larger-IsLarger size block (i * 2 + 1) i v.room (λ h. omega arith)) λ l lv.
          Returns-bind (larger-IsLarger size block (i * 2 + 2) l v.room (λ h. omega arith)) λ m mv.
            elim (Bool-cases (i == m)) [
              | inl same ↦ rw same (returns (λ c p q. ground (arith, v.edges c), Perm.rfl, refl))
              | inr moved ↦
                  let inside : m < size = ground arith in
                  let here : i < length block = omega arith in
                  let next =
                    exchange-DownInv rank size block i m v inside (ground arith) (omega arith)
                      (λ c p q r. ground arith) in
                  rw (moved, swap-ok block m i (omega arith) here)
                    (Returns-mono
                      (down_loop-Sifted fuel size (exchange block m i) m (ground arith) next)
                      λ b (heap, perm, len). (
                        heap,
                        Perm.trans perm
                            (take-exchange-perm size block m i v.room inside (ground arith)),
                        len ∙ length-exchange block m i,
                      ))
            ])
