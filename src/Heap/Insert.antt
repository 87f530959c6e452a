-- ===== src/Heap/Insert.antt =====
-- heap_insert adds one element, or reports that no memory was granted.
use mathlib.Core.List.Perm
use libvci.Base.{
  Ranks, ℕ, suc, ◌+◌, ◌-◌, ◌*◌, ◌%◌, ◌^◌, ◌≤◌, ◌<◌, ◌≡◌, refl, ◌∙◌, ◌⊎◌, inl, inr, arith, max,
  false, List, ◌∷◌, [], ◌++◌, Perm, length, get_or, set, take, ltb, leb, Bool-cases, u32, store-ok,
  length-set, get_or-set, take-suc, take-set_beyond, snoc-perm, Returns, returns, Returns-mono,
  Returns-bind, Code, success, failure, enomem, Allocator,
}
use libvci.Heap.{Heap, heapify_up, heap_place, heap_insert, heap_after_growth}
use libvci.Heap.Order.{
  parent, IsValid, items, Sifted, Rearranged, Rearranged-IsValid, Rearranged-perm,
}
use libvci.Heap.Resize.{
  resized_heap, heap_resize-granted, heap_resize-refused, resized_heap-IsValid,
}
use libvci.Heap.Up.{UpInv, up_loop-Sifted}

-- heap_insert on a heap that is full while no memory is granted.
pub record Refused (mem : Allocator) (h : Heap) (r : Code × Heap) : Type 0 where
  pub code : r.0 ≡ failure enomem
  pub same : r.1 ≡ h
  pub full : h.capacity ≤ h.size
  pub denied : mem.grants (max 8 (h.capacity * 2)) ≡ false

module _ (rank : ℕ → ℕ) where
  heapify_up-Rearranged :
      (h : Heap)
      → Ranks rank h.data_compare
      → UpInv rank h.size h.data_words (h.size - 1)
      → Returns (Rearranged rank h) (heapify_up h)
  unfolding heapify_up
  heapify_up-Rearranged h ranks v = elim (Bool-cases (ltb h.size 2)) [
    | inl few ↦
        rw few (returns (kept h.data_words ((λ c p q. absurd (ground arith)), Perm.rfl, refl)))
    | inr many ↦ rw many (
        Returns-bind
          (up_loop-Sifted rank h.data_compare ranks h.size h.size h.data_words (h.size - 1)
            (ground arith) v)
          λ b s. returns (kept b s))
  ]
    where
      kept :
          (b : List ℕ)
          → Sifted rank h.size h.data_words b
          → Rearranged rank h (record h { data_words = b })
      kept b s = record {
        compare_kept = refl;
        delete_kept = refl;
        size_kept = refl;
        capacity_kept = refl;
        sifted = s;
      }

  -- The heap that heap_insert leaves, and its result.
  pub record Placed (h : Heap) (x : ℕ) (r : Code × Heap) : Type 0 where
    pub done : r.0 ≡ success
    pub valid : IsValid rank r.1
    pub added : Perm (items r.1) (x ∷ items h)
    pub deleter_kept : r.1.data_delete ≡ h.data_delete

  place-UpInv :
      (h : Heap) (x : ℕ)
      → IsValid rank h
      → h.size < h.capacity
      → UpInv rank (h.size + 1) (set h.data_words h.size x) (h.size + 1 - 1)
  place-UpInv h x v room =
      let at = λ (c : ℕ). get_or-set h.data_words h.size c x 0 in
      record {
        inside = omega arith;
        room = omega (arith, v.block, length-set h.data_words h.size x);
        edges = λ c p q r. ground (arith, v.block, v.ordered c, at c, at (parent c));
        bridged = λ c p q r t. absurd (omega arith);
      }

  place_items :
      (h : Heap) (x : ℕ)
      → h.size < length h.data_words
      → take (h.size + 1) (set h.data_words h.size x) ≡ items h ++ x ∷ []
  place_items h x room =
      let one : h.size + 1 ≡ suc h.size = omega arith in
      let at : get_or (set h.data_words h.size x) h.size 0 ≡ x =
        ground (arith, get_or-set h.data_words h.size h.size x 0) in
      rw
        (
          one,
          take-suc h.size (set h.data_words h.size x) 0 (rw length-set room),
          at,
          take-set_beyond h.size h.data_words h.size x (omega arith),
        )
        refl

  pub heap_place-Placed :
      (h : Heap) (x : ℕ)
      → IsValid rank h
      → h.size < h.capacity
      → Returns (Placed h x) (heap_place h x)
  unfolding heap_place
  heap_place-Placed h x v room =
      let grown : (h.size + 1) % u32 ≡ h.size + 1 = omega (arith, v.most_capacity) in
      let there : h.size < length h.data_words = omega (arith, v.block) in
      rw (store-ok h.data_words h.size x there, grown)
        (Returns-bind
          (heapify_up-Rearranged
            (record h { data_words = set h.data_words h.size x; size = h.size + 1 }) v.ranks
            (place-UpInv h x v room))
          λ h' r. returns (record {
            done = refl;
            valid =
                Rearranged-IsValid r v.ranks (omega arith)
                  (length-set h.data_words h.size x ∙ v.block) v.least_capacity v.most_capacity;
            added =
                Perm.trans (Rearranged-perm r) (rw (place_items h x there) (snoc-perm (items h) x));
            deleter_kept = r.delete_kept;
          }))

  -- heap_insert on a valid heap below the largest capacity adds exactly the given element and keeps
  -- the heap valid; or the heap is full, the allocator refuses, and nothing changes.
  pub heap_insert-Placed :
      (mem : Allocator) (h : Heap) (x : ℕ)
      → IsValid rank h
      → (h.capacity ≤ h.size → h.capacity ≤ 2 ^ 30)
      → Returns (λ r. Placed h x r ⊎ Refused mem h r) (heap_insert mem h x)
  unfolding heap_insert heap_after_growth
  heap_insert-Placed mem h x v room = elim (Bool-cases (leb h.capacity h.size)) [
    | inr space ↦ rw space (Returns-mono (heap_place-Placed h x v (ground arith)) λ r p. inl p)
    | inl full ↦
        let doubled : (h.capacity * 2) % u32 ≡ h.capacity * 2 =
          omega (arith, room (ground arith)) in
        let small = room (ground arith) in
        rw (full, doubled)
          (elim (Bool-cases (mem.grants (max 8 (h.capacity * 2)))) [
            | inr denied ↦ rw (heap_resize-refused mem h (h.capacity * 2) denied) (
                returns
                  (inr (record { code = refl; same = refl; full = ground arith; denied = denied })))
            | inl granted ↦
                let size = v.bounded in
                let low = v.least_capacity in
                let (valid, same) =
                  resized_heap-IsValid rank mem h (h.capacity * 2) v (omega arith) (omega arith) in
                rw (heap_resize-granted mem h (h.capacity * 2) granted) (
                  Returns-mono
                    (heap_place-Placed (resized_heap mem h (h.capacity * 2)) x valid (omega arith))
                    λ r p. inl (record {
                      done = p.done;
                      valid = p.valid;
                      added = rw same at p.added;
                      deleter_kept = p.deleter_kept;
                    }))
          ])
  ]
