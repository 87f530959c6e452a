-- ===== src/Heap/Resize.antt =====
-- _heap_resize keeps the elements of a valid heap.
use libvci.Base.{
  get_or-resized, take-resized, ℕ, ◌^◌, ◌≤◌, ◌≡◌, arith, max, true, false, success, failure, enomem,
  Allocator, realloc, resized, length-resized,
}
use libvci.Heap.{Heap, heap_resize}
use libvci.Heap.Order.{parent, IsValid, items}

-- What _heap_resize leaves if the allocator grants the block.
abbrev pub resized_heap : Allocator → Heap → ℕ → Heap
resized_heap mem h n = record h {
  data_words = resized mem h.data_words (max 8 n);
  capacity = max 8 n;
}

module _ (mem : Allocator) (h : Heap) (n : ℕ) where
  pub heap_resize-granted :
      mem.grants (max 8 n) ≡ true → heap_resize mem h n ≡ (success, resized_heap mem h n)
  unfolding heap_resize realloc
  heap_resize-granted e = rw (e, heap_resize)

  pub heap_resize-refused : mem.grants (max 8 n) ≡ false → heap_resize mem h n ≡ (failure enomem, h)
  unfolding heap_resize realloc
  heap_resize-refused e = rw (e, heap_resize)

module _ (rank : ℕ → ℕ) where
  pub resized_heap-IsValid :
      (mem : Allocator) (h : Heap) (n : ℕ)
      → IsValid rank h
      → h.size ≤ max 8 n
      → n ≤ 2 ^ 31
      → IsValid rank (resized_heap mem h n) × (items (resized_heap mem h n) ≡ items h)
  resized_heap-IsValid mem h n v fits small =
      let fixed = v.bounded in
      let size = v.block in
      let at = get_or-resized mem h.data_words (max 8 n) in
      (
        record {
          ranks = v.ranks;
          bounded = fits;
          block = length-resized mem h.data_words (max 8 n);
          least_capacity = omega arith;
          most_capacity = omega arith;
          ordered = λ c p q.
              rw (at c (omega arith) (omega arith), at (parent c) (omega arith) (omega arith))
                (v.ordered c p q);
        },
        take-resized mem h.data_words (max 8 n) h.size fits (omega arith),
      )
