-- ===== src/Heap/Take.antt =====
-- heap_take removes a largest element.
use native.Mathlib.Bridge.{le_prop}
use mathlib.Core.List.{Mem, not-mem-nil, forall_mem-cons}
use mathlib.Core.List.Perm
use libvci.Base.{
  Ranks, ℕ, zero, suc, ◌+◌, ◌-◌, ◌/◌, ◌%◌, ◌≤◌, ◌<◌, ◌≡◌, refl, ◌∙◌, inl, inr, arith, max, List,
  ◌∷◌, [], Perm, length, get_or, set, take, ltb, Bool-cases, u32, ok, load-ok, store-ok, length-set,
  get_or-set, take-suc, take-set, snoc-perm, set-perm, Returns, returns, Returns-bind, Allocator,
  get_or-take, length-take,
}
use libvci.Heap.{Heap, heapify_down, heap_shrink, heap_take, heap_retrieve}
use libvci.Heap.Order.{
  parent, IsValid, items, Rearranged, Rearranged-IsValid, Rearranged-perm, root_greatest,
}
use libvci.Heap.Resize.{heap_resize-granted, heap_resize-refused, resized_heap-IsValid}
use libvci.Heap.Down.{DownInv, down_loop-Sifted}

-- What moves up to the root, and what stays.
cut-perm :
    (n : ℕ) (block : List ℕ)
    → n < length block
    → Perm (get_or block 0 0 ∷ take n (set block 0 (get_or block n 0))) (take (suc n) block)
cut-perm zero (x ∷ block) h = Perm.refl _
cut-perm zero [] h = absurd (omega arith)
cut-perm (suc n) block h =
    let last = get_or block (suc n) 0 in
    let size = length-take {0} (suc n) block in
    rw
      (
        take-set (suc n) block 0 last (omega arith),
        take-suc (suc n) block 0 h,
        ← get_or-take (suc n) block 0 0 (omega arith),
      )
      (Perm.trans (set-perm (take (suc n) block) 0 last 0 (omega (arith, size)))
        (Perm.symm (snoc-perm (take (suc n) block) last)))

module _ (rank : ℕ → ℕ) where
  le_of_mem :
      (block : List ℕ) (n m : ℕ)
      → ((i : ℕ) → i < n → rank (get_or block i 0) ≤ m)
      → n ≤ length block
      → (y : ℕ) → Mem y (take n block)
      → rank y ≤ m
  le_of_mem block zero m h fits = λ y i. absurd (not-mem-nil i)
  le_of_mem [] (suc n) m h fits = absurd (omega arith)
  le_of_mem (x ∷ block) (suc n) m h fits =
      (forall_mem-cons λ t. le_prop).1
        (h 0 (omega arith), le_of_mem block n m (λ i p. h (suc i) (omega arith)) (omega arith))

  heap_shrink-IsValid :
      (mem : Allocator) (h : Heap)
      → IsValid rank h
      → IsValid rank (heap_shrink mem h)
        × (items (heap_shrink mem h) ≡ items h)
        × ((heap_shrink mem h).data_delete ≡ h.data_delete)
  unfolding heap_shrink
  heap_shrink-IsValid mem h v = elim (Bool-cases (ltb h.size (h.capacity / 2))) [
    | inr dense ↦ rw dense (v, refl, refl)
    | inl sparse ↦ elim (Bool-cases (mem.grants (max 8 (h.capacity / 2)))) [
      | inr denied ↦ rw (sparse, heap_resize-refused mem h (h.capacity / 2) denied) (v, refl, refl)
      | inl granted ↦
          let top = v.most_capacity in
          let (valid, same) =
            resized_heap-IsValid rank mem h (h.capacity / 2) v (ground arith) (omega arith) in
          rw (sparse, heap_resize-granted mem h (h.capacity / 2) granted) (valid, same, refl)
    ]
  ]

  heapify_down-Rearranged :
      (h : Heap)
      → Ranks rank h.data_compare
      → DownInv rank h.size h.data_words 0
      → Returns (Rearranged rank h) (heapify_down h)
  unfolding heapify_down
  heapify_down-Rearranged h ranks v =
      Returns-bind
        (down_loop-Sifted rank h.data_compare ranks (h.size + 1) h.size h.data_words 0 (omega arith)
          v)
        λ b s. returns (record {
          compare_kept = refl;
          delete_kept = refl;
          size_kept = refl;
          capacity_kept = refl;
          sifted = s;
        })

  -- The element that heap_take returns, and the heap that it leaves.
  pub record Taken (h : Heap) (r : ℕ × Heap) : Type 0 where
    pub valid : IsValid rank r.1
    pub removed : Perm (r.0 ∷ items r.1) (items h)
    pub greatest : (y : ℕ) → Mem y (items h) → rank y ≤ rank r.0
    pub peeked : heap_retrieve h ≡ ok r.0
    pub deleter_kept : r.1.data_delete ≡ h.data_delete

  cut-DownInv :
      (h : Heap) (n : ℕ)
      → IsValid rank h
      → h.size ≡ suc n
      → DownInv rank n (set h.data_words 0 (get_or h.data_words n 0)) 0
  cut-DownInv h n v e =
      let at = λ (c : ℕ). get_or-set h.data_words 0 c (get_or h.data_words n 0) 0 in
      record {
        place = omega arith;
        small = omega (arith, v.bounded, v.most_capacity);
        room =
            omega (arith, v.bounded, v.block, length-set h.data_words 0 (get_or h.data_words n 0));
        edges = λ c p q r. ground (arith, v.bounded, v.block, v.ordered c, at c, at (parent c));
        bridged = λ c p q r t. absurd (omega arith);
      }

  -- heap_take on a valid heap with an element returns the element that heap_retrieve shows, which
  -- no element exceeds, and leaves a valid heap of the others, whether or not the block shrinks.
  pub heap_take-Taken :
      (mem : Allocator) (h : Heap)
      → IsValid rank h
      → 0 < h.size
      → Returns (Taken h) (heap_take mem h)
  unfolding heap_take heap_retrieve
  heap_take-Taken mem h v pos =
      let n = h.size - 1 in
      let e : h.size ≡ suc n = omega arith in
      let fixed = v.bounded in
      let size = v.block in
      let top = v.most_capacity in
      let down : (h.size + u32 - 1) % u32 ≡ n = omega arith in
      let last = get_or h.data_words n 0 in
      let inside : n < length h.data_words = omega arith in
      let root : 0 < length h.data_words = omega arith in
      let cut = record h { data_words = set h.data_words 0 last; size = n } in
      rw
        (
          down,
          load-ok h.data_words 0 root,
          load-ok h.data_words n inside,
          store-ok h.data_words 0 last root,
        )
        (Returns-bind (heapify_down-Rearranged cut v.ranks (cut-DownInv h n v e)) λ h' r.
          let valid =
            Rearranged-IsValid r v.ranks (omega arith) (length-set h.data_words 0 last ∙ v.block)
              v.least_capacity v.most_capacity in
          let (shrunk, same, deleter) = heap_shrink-IsValid mem h' valid in
          returns (record {
            valid = shrunk;
            removed =
                rw (same, e)
                  (Perm.trans (Perm.cons _ (Rearranged-perm r)) (cut-perm n h.data_words inside));
            greatest =
                le_of_mem h.data_words h.size _
                  (λ i p. root_greatest rank h.size h.data_words i v.ordered p) (omega arith);
            peeked = load-ok h.data_words 0 root;
            deleter_kept = deleter ∙ r.delete_kept;
          }))
